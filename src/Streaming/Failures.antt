-- ===== src/Streaming/Failures.antt =====
-- internal/streaming/reader.go: what a writer that fails has of a stream.
use mcp_xlsm_server.Prelude.{
  ◌≡◌, refl, sym, ap, ◌∙◌, ◌⊎◌, inl, inr, Bool, true, false, List, [], ◌∷◌, ◌++◌,
}
use mathlib.Core.Path.{subst}
use mathlib.Core.List.{append-nil, append_assoc}
use mcp_xlsm_server.Streaming.{
  Message, Log, Run, done, write_failed, sheet_unreadable, panicked, running, and_then,
}

-- The writer that accepts every message.
abbrev pub accept_all : Log → Message → Bool
accept_all log m = false

module _ (fails : Log → Message → Bool) where
  -- The writer accepts the messages one after the other, behind a log.
  abbrev pub AreAccepted : Log → List Message → Type 0
  AreAccepted log [] = Unit
  AreAccepted log (m ∷ ms) = (fails log m ≡ false) × AreAccepted (log ++ m ∷ []) ms

  -- A run behind a log, and the one that every message is accepted in. The writer accepts the
  -- messages of both, and the runs are the same; or it accepts those before some message and refuses
  -- that one, and the first run ends there with the failure.
  abbrev pub IsCut : Log → Run → Run → Type 0
  IsCut log run whole =
      (sent : List Message) × AreAccepted log sent
      × (((run ≡ whole) × (whole.0 ≡ log ++ sent))
          ⊎ ((m : Message) × (rest : List Message) × (fails (log ++ sent) m ≡ true)
              × (whole.0 ≡ log ++ sent ++ m ∷ rest)
              × (run ≡ (log ++ sent, write_failed))))

  append-AreAccepted :
      (log ms ns : List Message)
      → AreAccepted log ms
      → AreAccepted (log ++ ms) ns
      → AreAccepted log (ms ++ ns)
  append-AreAccepted log [] ns h k = subst (λ l. AreAccepted l ns) (append-nil log) k
  append-AreAccepted log (m ∷ ms) ns (h, hs) k = (
    h,
    append-AreAccepted (log ++ m ∷ []) ms ns hs
        (subst (λ l. AreAccepted l ns) (sym (append_assoc log (m ∷ []) ms)) k),
  )

  -- What is so behind the messages that were accepted is so behind the log.
  later-IsCut :
      (log sent l : List Message) (run whole : Run)
      → l ≡ log ++ sent
      → AreAccepted log sent
      → IsCut l run whole
      → IsCut log run whole
  later-IsCut log sent l run whole e first h =
      let (next, second, end) = subst (λ k. IsCut k run whole) e h in
      let flat = append_assoc log sent next in
      let both = append-AreAccepted log sent next first second in
      elim end [
        | inl (same, all) ↦ (sent ++ next, both, inl (same, all ∙ flat))
        | inr (m, rest, refused, all, ended) ↦ (
          sent ++ next,
          both,
          inr (
            m,
            rest,
            subst (λ k. fails k m ≡ true) flat refused,
            all ∙ ap (λ k. k ++ m ∷ rest) flat,
            ended ∙ ap (λ (k : Log). (k, write_failed)) flat,
          ),
        )
      ]

  -- Either way the whole run only adds to the log.
  adds :
      (log : Log) (run whole : Run) → IsCut log run whole → (rest : Log) × (whole.0 ≡ log ++ rest)
  adds log run whole (sent, accepted, inl (same, all)) = (sent, all)
  adds log run whole (sent, accepted, inr (m, rest, refused, all, ended)) =
      (sent ++ m ∷ rest, all ∙ append_assoc log sent (m ∷ rest))

  added_in_sequence :
      (r : Run) (g : Log → Run)
      → ((log : Log) → (rest : Log) × ((g log).0 ≡ log ++ rest))
      → (rest : Log) × ((and_then r g).0 ≡ r.0 ++ rest)
  added_in_sequence (log, done) g hg = hg log
  added_in_sequence (log, write_failed) g hg = ([], sym (append-nil log))
  added_in_sequence (log, sheet_unreadable) g hg = ([], sym (append-nil log))
  added_in_sequence (log, panicked) g hg = ([], sym (append-nil log))
  added_in_sequence (log, running) g hg = ([], sym (append-nil log))

  -- Where nothing was refused, the second step decides.
  accepted_in_sequence :
      (log sent : Log) (whole : Run) (g g' : Log → Run)
      → AreAccepted log sent
      → whole.0 ≡ log ++ sent
      → ((l : Log) → IsCut l (g l) (g' l))
      → IsCut log (and_then whole g) (and_then whole g')
  accepted_in_sequence log sent (l, done) g g' accepted all hg =
      later-IsCut log sent l (g l) (g' l) all accepted (hg l)
  accepted_in_sequence log sent (l, write_failed) g g' accepted all hg =
      (sent, accepted, inl (refl, all))
  accepted_in_sequence log sent (l, sheet_unreadable) g g' accepted all hg =
      (sent, accepted, inl (refl, all))
  accepted_in_sequence log sent (l, panicked) g g' accepted all hg =
      (sent, accepted, inl (refl, all))
  accepted_in_sequence log sent (l, running) g g' accepted all hg =
      (sent, accepted, inl (refl, all))

  -- Two steps in sequence.
  pub and_then-IsCut :
      (log : Log) (run whole : Run) (g g' : Log → Run)
      → IsCut log run whole
      → ((l : Log) → IsCut l (g l) (g' l))
      → IsCut log (and_then run g) (and_then whole g')
  and_then-IsCut log run whole g g' (sent, accepted, inl (same, all)) hg =
      subst (λ r. IsCut log (and_then r g) (and_then whole g')) (sym same)
        (accepted_in_sequence log sent whole g g' accepted all hg)
  and_then-IsCut log run whole g g' (sent, accepted, inr (m, rest, refused, all, ended)) hg =
      let (more, e) = added_in_sequence whole g' (λ l. adds l (g l) (g' l) (hg l)) in
      (
        sent,
        accepted,
        inr (
          m,
          rest ++ more,
          refused,
          e ∙ (ap (λ k. k ++ more) all ∙ append_assoc (log ++ sent) (m ∷ rest) more),
          ap (λ r. and_then r g) ended,
        ),
      )

  -- A run that writes nothing.
  pub unchanged-IsCut : (log : Log) (run : Run) → log ≡ run.0 → IsCut log run run
  unchanged-IsCut log run e = ([], tt, inl (refl, sym e ∙ sym (append-nil log)))
