-- ===== src/Lib.antt =====
-- The engine core of freeToken-rs, an inference server for mixture-of-experts models.
--
-- A request comes in through ft-model/src/openai.rs (validation, the chat template) and
-- ft-model/src/bin/serve.rs, whose worker decodes all active sequences together: each round admits
-- jobs into free slots of the batch and runs one forward pass over it. The pass (ft-model/src/lib.rs)
-- looks up the routed experts of each layer in the slot cache of ft-core/src/lib.rs, copies missing
-- ones to the GPU, leaves others to the CPU, and samples the next tokens. The bytes of the tokens go
-- back through the UTF-8 stream and the stop matcher. Weights come from GGUF files (ft-gguf/src/lib.rs).
--
-- Which file models what, function names as in the source:
--   * SlotCache.antt: `SlotCache` of ft-core/src/lib.rs. The slots are a list, the map a function,
--     the ages and totals wrap at 2 ^ 64; a panic is `none`. The loops of `lookup` are `touch_hits`
--     and `admit_all`. Its children hold the invariant and what each operation does under it.
--   * Dispatch.antt: the loop of `forward_batch` in ft-model/src/lib.rs that routes experts to slots,
--     to the host's bank or to the CPU, and `split_misses` of ft-core/src/lib.rs. What a slot holds is
--     a function of the copies; the router weights and the mode `gpu_routing` are left out.
--   * CopyRuns.antt: `plan_runs` of ft-core/src/lib.rs, which only its tests call so far, with
--     its sort as an insertion sort by key.
--   * Q4.antt: the two layouts of q4_0 rows in ft-core/src/q4_0.rs, `repack_row_q4r` and, of
--     ft-model/src/lib.rs, `repack_q4r`. Q4/Vector.antt has the vector instructions as functions on
--     lists of lanes, Q4/Gemv.antt the four dot products, `gemv_q8` and `gemv_q8_r`, over an
--     interface of floats.
--   * Tokenizer.antt: `Tokenizer` of ft-model/src/tokenizer.rs and `from_gguf`; Tokenizer/Bpe.antt,
--     Tokenizer/Specials.antt and Tokenizer/Decode.antt are `encode`, `encode_with_specials` and the
--     decoding. A hash map is its list of entries, the newest first.
--   * Chars.antt: texts of characters and their UTF-8.
--   * Text.antt: the methods of `str` that the crates call. A text is a list of numbers.
--   * Openai/Request.antt, Openai/Chat.antt, Openai/Stop.antt: `check_common`, `render_chat` with
--     `message_text`, and `StopMatcher` of ft-model/src/openai.rs. Openai/Utf8.antt is its
--     `Utf8Stream`, on the automaton of Gguf/Utf8.antt.
--   * Gguf/: ft-gguf/src/lib.rs. Gguf/Outcome.antt is the reader as a state monad over the position,
--     whose results are values, errors and panics; Gguf/Utf8.antt is the check of `from_utf8`;
--     Gguf/Value.antt and Gguf/Reader.antt are `Value` and `Reader`; Gguf/File.antt is `Gguf` with
--     `open` (`open_file` here, since `open` is a keyword), `tensor` and `tensor_data`.
--   * Engine.antt: the part of `Model` in ft-model/src/lib.rs that the worker depends on: the
--     positions of the sequences and the checks of `forward_sample` and `forward_sample_graphed`.
--   * Worker.antt: `worker` of ft-model/src/bin/serve.rs; Worker/Gen.antt is `Gen::new` there, and
--     Worker/Log.antt, Worker/Told.antt and Worker/Served.antt follow what each client is sent.
--   * Server/: the rest of ft-model/src/bin/serve.rs. Server/Relay.antt is the thread of
--     `Gen::start`, Server/Response.antt `api_error` and `collect`, Server/Sse.antt `sse`,
--     Server/Numerals.antt `new_id`, Server/Endpoint.antt the handlers `chat` and `completions`, and
--     Server/Gate.antt `gate` and the models. A JSON value is a record of its fields.
--   * Prelude.antt: shared names, Boolean tests, lists with positions, code that may panic.
--
-- Numbers are natural numbers. Where the source has machine integers the wrap-around of a release
-- build is written out where a value can reach it; a `usize` has 64 bits. Floats are kept as bit
-- patterns, or are parameters.
--
-- Fuel: `read_value` of the GGUF reader has fuel for the nesting of arrays, and `open_file` gives it
-- the length of the file. Each level of nesting reads 12 bytes, so this is never used up. The merges of
-- `encode` have fuel for the pieces and `encode_with_specials` for the text, of which each turn takes
-- away some. A poll of the event stream goes round its loop three times at most, and the stream has
-- fuel for four events more than there are messages. All other loops are structural; the loops of the worker that wait for events are rounds over an explicit
-- list of arrivals.
--
-- What the world does is a parameter: which token the model samples, which calls of CUDA fail, what
-- arrives in the queue of jobs, which clients have gone away, what the worker sends for a job, the
-- readings of the clock and the header maps of the HTTP library.
--
-- Not modelled: the CUDA kernels and their bindings (ft-cuda), the numeric forward pass, floating
-- point (`hit_rate`, the bandwidth model, quantization), memory mapping and file access, the parsing and
-- printing of JSON, the routes and `main` of the server, the benchmarks and the command-line tools.
pub mod Prelude
pub mod Text
pub mod Chars
pub mod SlotCache
pub mod CopyRuns
pub mod Q4
pub mod Openai
pub mod Gguf
pub mod Tokenizer
pub mod Engine
pub mod Worker
pub mod Server
pub mod Dispatch
