-- ===== src/Streaming/Response.antt =====
-- internal/streaming/reader.go, `StreamingResponse`: single messages, one after the other. Flushing,
-- which changes no message, is left out.
use mcp_xlsm_server.Prelude.{
  ◌+◌, ◌≡◌, arith, Bool, true, false, List, [], ◌∷◌, ◌++◌, String, length, if◌then◌else◌,
  length-append, Bool-cases, inl, inr,
}
use mcp_xlsm_server.Models.{Text}

-- What a message has beside its type.
pub data Payload (D : Type 0) : Type 0 where
  data_of : D → Payload D
  error_of : Text → Payload D
  no_payload : Payload D

pub record ResponseMessage (D : Type 0) : Type 0 where
  pub kind : String
  pub payload : Payload D

-- The messages that were written, and whether the last call succeeded.
abbrev pub Written : Type 0 → Type 0
Written D = List (ResponseMessage D) × Bool

-- `refuses log m` says whether the writer refuses `m` behind `log`, or `m` has no JSON.
module _ {D : Type 0} (refuses : List (ResponseMessage D) → ResponseMessage D → Bool) where
  unfoldable pub encode : ResponseMessage D → List (ResponseMessage D) → Written D
  encode m log = if refuses log m then (log, false) else (log ++ m ∷ [], true)

  abbrev pub write_metadata : D → List (ResponseMessage D) → Written D
  write_metadata d log = encode (record { kind = "metadata"; payload = data_of d }) log

  abbrev pub write_data : String → D → List (ResponseMessage D) → Written D
  write_data data_type d log = encode (record { kind = data_type; payload = data_of d }) log

  abbrev pub write_error : Text → List (ResponseMessage D) → Written D
  write_error text log = encode (record { kind = "error"; payload = error_of text }) log

  abbrev pub write_complete : List (ResponseMessage D) → Written D
  write_complete log = encode (record { kind = "complete"; payload = no_payload }) log

  -- Every call adds one message if it succeeds, and none if it fails.
  length-encode :
      (m : ResponseMessage D) (log : List (ResponseMessage D))
      → length (encode m log).0 ≡ length log + (if (encode m log).1 then 1 else 0)
  unfolding encode
  length-encode m log = elim (Bool-cases (refuses log m)) [
    | inl e ↦ rw (encode, e) (omega arith)
    | inr e ↦ rw (encode, e) (length-append log (m ∷ []))
  ]
