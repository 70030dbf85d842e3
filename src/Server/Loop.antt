-- ===== src/Server/Loop.antt =====
-- What the loop over the standard input prints, and how it ends.
use mcp_xlsm_server.Prelude.{
  ℕ, Bool, true, false, none, some, List, [], ◌∷◌, ℤ, negsuc, ◌≡◌, refl, inl, inr, ◌⊎◌, Bool-cases,
  Option-cases,
}
use mcp_xlsm_server.Models.{Text}
use mcp_xlsm_server.Server.{
  McpResponse, McpError, Failure, Outcome, answered, failed, panicked, hung, Answer, ServerInfo,
  ToolHandler, McpCodec, parse_error, internal_error, route_request, result_response,
  error_response,
}
use mcp_xlsm_server.Server.Stdio.{
  Scanned, End, input_ended, context_done, crashed, stuck, Handled, prints, stops, handle_line,
  start_stdio, after_line, send_stdio_error, respond_stdio,
}

-- A response has a result or an error, and not both.
abbrev pub IsReply : {A I : Type 0} → McpResponse A I → Type 0
IsReply {A} r =
    (((a : A) × (r.result ≡ some a)) × (r.error ≡ none))
    ⊎ ((r.result ≡ none) × ((e : McpError) × (r.error ≡ some e)))

module _ {S P R I : Type 0} (tools : ToolHandler S P R) (info : ServerInfo)
    (codec : McpCodec P (Answer R) I) where
  -- The text is that of a response to the line.
  abbrev pub IsReplyTo : Text → Text → Type 0
  IsReplyTo line out =
      (r : McpResponse (Answer R) I) × (codec.marshal r ≡ some out)
      × (r.id ≡ (codec.unmarshal line).0.id)
      × IsReply r

  -- In some state of the tools, the request of the line has the outcome.
  abbrev pub Meets : Text → Outcome (Answer R) → Type 0
  Meets line o =
      ((codec.unmarshal line).1 ≡ true)
      × ((s : S) × ((route_request tools info (codec.unmarshal line).0 s).1 ≡ o))

  -- The lines, what is printed for those that are not empty, one text for each in their order, and
  -- the end: that of the input, or at a line where the context is done, or at a line whose request
  -- makes a tool panic or not return.
  pub data Replies : List Scanned → List Text → End → Type 0 where
    at_end : Replies [] [] input_ended
    at_done :
        (line : Text) (rest : List Scanned)
        → Replies (record { cancelled = true; line = line } ∷ rest) [] context_done
    at_empty :
        (rest : List Scanned) (outs : List Text) (end : End)
        → Replies rest outs end
        → Replies (record { cancelled = false; line = [] } ∷ rest) outs end
    at_line :
        (c : ℕ) (line : Text) (rest : List Scanned) (out : Text) (outs : List Text) (end : End)
        → IsReplyTo (c ∷ line) out
        → Replies rest outs end
        → Replies (record { cancelled = false; line = c ∷ line } ∷ rest) (out ∷ outs) end
    at_crash :
        (c : ℕ) (line : Text) (rest : List Scanned)
        → Meets (c ∷ line) panicked
        → Replies (record { cancelled = false; line = c ∷ line } ∷ rest) [] crashed
    at_stuck :
        (c : ℕ) (line : Text) (rest : List Scanned)
        → Meets (c ∷ line) hung
        → Replies (record { cancelled = false; line = c ∷ line } ∷ rest) [] stuck

  -- Every error has a JSON.
  abbrev pub ErrorsPrint : Type 0
  ErrorsPrint =
      (i : I) (code : ℤ) (f : Failure)
      → (out : Text) × (codec.marshal (error_response i code f) ≡ some out)

  -- What becomes of a line that is not empty: one reply is printed, or the loop ends there.
  data Becomes (line : Text) : Handled → Type 0 where
    replied : (out : Text) → IsReplyTo line out → Becomes line (prints (out ∷ []))
    crashes : Meets line panicked → Becomes line (stops crashed)
    sticks : Meets line hung → Becomes line (stops stuck)

  send_stdio_error-Becomes :
      ErrorsPrint
      → (line : Text) (i : I) (code : ℤ) (f : Failure) → i ≡ (codec.unmarshal line).0.id
      → Becomes line (prints (send_stdio_error tools info codec i code f))
  send_stdio_error-Becomes prints_all line i code f h =
      let (out, e) = prints_all i code f in
      rw e (replied out (error_response i code f, e, h, inr (refl, (_, refl))))

  respond_stdio-Becomes :
      ErrorsPrint
      → (line : Text) (i : I) (o : Outcome (Answer R)) → i ≡ (codec.unmarshal line).0.id
      → Meets line o
      → Becomes line (respond_stdio tools info codec i o)
  respond_stdio-Becomes prints_all line i (answered a) h m =
      elim (Option-cases (codec.marshal (result_response i a))) [
        | inl k ↦ rw k (send_stdio_error-Becomes prints_all line i (negsuc 32602) internal_error h)
        | inr (out, k) ↦ rw k (replied out (result_response i a, k, h, inl ((a, refl), refl)))
      ]
  respond_stdio-Becomes prints_all line i (failed f) h m =
      let (out, k) = prints_all i (negsuc 31999) f in
      rw k (replied out (error_response i (negsuc 31999) f, k, h, inr (refl, (_, refl))))
  respond_stdio-Becomes prints_all line i panicked h m = crashes m
  respond_stdio-Becomes prints_all line i hung h m = sticks m

  handle_line-Becomes :
      ErrorsPrint → (line : Text) (s : S) → Becomes line (handle_line tools info codec line s).1
  unfolding handle_line
  handle_line-Becomes prints_all line s =
      let req = (codec.unmarshal line).0 in
      elim (Bool-cases (codec.unmarshal line).1) [
        | inr e ↦
            rw (handle_line, e)
              (send_stdio_error-Becomes prints_all line req.id (negsuc 32699) parse_error refl)
        | inl e ↦
            rw (handle_line, e)
              (respond_stdio-Becomes prints_all line req.id (route_request tools info req s).1 refl
                (e, (s, refl)))
      ]

  after_line-Replies :
      (c : ℕ) (line : Text) (rest : List Scanned) (s : S) (h : Handled) (r : S × List Text × End)
      → Becomes (c ∷ line) h
      → Replies rest r.1 r.2
      → let (t, outs, end) = after_line s h r in
        Replies (record { cancelled = false; line = c ∷ line } ∷ rest) outs end
  after_line-Replies c line rest s _ r (replied out a) later = at_line c line rest out _ _ a later
  after_line-Replies c line rest s _ r (crashes m) later = at_crash c line rest m
  after_line-Replies c line rest s _ r (sticks m) later = at_stuck c line rest m

  start_stdio_cons :
      ErrorsPrint
      → (is_done : Bool) (line : Text) (rest : List Scanned) (s : S)
      → ((t : S) → let r = start_stdio tools info codec rest t in Replies rest r.1 r.2)
      → let r =
          start_stdio tools info codec (record { cancelled = is_done; line = line } ∷ rest) s in
        Replies (record { cancelled = is_done; line = line } ∷ rest) r.1 r.2
  unfolding start_stdio
  start_stdio_cons prints_all true line rest s later = at_done line rest
  start_stdio_cons prints_all false [] rest s later = at_empty rest _ _ (later s)
  start_stdio_cons prints_all false (c ∷ line) rest s later =
      let (s', handled) = handle_line tools info codec (c ∷ line) s in
      after_line-Replies c line rest s' handled (start_stdio tools info codec rest s')
        (handle_line-Becomes prints_all (c ∷ line) s) (later s')

  -- Whatever the lines and the tools: the loop prints, for each line that is not empty and in their
  -- order, one text, the JSON of a response with the id of the request and either a result or an
  -- error. It goes on to the end of the input, or to a line where the context is done, or to one
  -- whose request makes a tool panic or not return, and for these it prints nothing. Every error
  -- has a JSON.
  pub start_stdio-Replies :
      ErrorsPrint
      → (lines : List Scanned) (s : S)
      → let (t, outs, end) = start_stdio tools info codec lines s in Replies lines outs end
  unfolding start_stdio
  start_stdio-Replies prints_all [] s = at_end
  start_stdio-Replies prints_all (scanned ∷ rest) s =
      start_stdio_cons prints_all scanned.cancelled scanned.line rest s
        (λ t. start_stdio-Replies prints_all rest t)
