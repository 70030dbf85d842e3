-- ===== src/Tests/TokenThreads.antt =====
-- Two threads that count one value and one that counts a text, with the cache cleaned in between.
use mcp_xlsm_server.Prelude.{◌≡◌, ◌∷◌, refl, arith, some, lookup, store, delete, nats_eq, length}
use mcp_xlsm_server.Decimal.{codes}
use mcp_xlsm_server.Models.{Text}
use mcp_xlsm_server.Token.{Encoder, ok}
use mcp_xlsm_server.Token.Threads.{
  System, Reach, start, after_step, load, finish, load_text, finish_text, clean, returned,
  returned_text, after_load, count_missed, after_load_text, count_missed_text, AreApart, IsTrue,
  Reach-IsTrue,
}

-- The keys begin with an `s`, as those of strings do, and the texts that are counted with a bracket.
abbrev typed_counter : Encoder Text
typed_counter = record { key = λ d. 115 ∷ d; marshal = λ d. some (34 ∷ d); token_length = length }

abbrev AnyText : Text → Type 0
AnyText t = Unit

abbrev IsBracketed : Text → Type 0
IsBracketed t = (rest : Text) × (t ≡ 123 ∷ rest)

typed_counter-AreApart : AreApart typed_counter AnyText IsBracketed
typed_counter-AreApart = record {
  determined = λ d e one other h. ground (arith, h);
  apart = λ d t one plain h. ground (arith, h, plain.1);
}

abbrev all_three : (s : System Text) × Reach typed_counter AnyText IsBracketed s
unfolding after_load count_missed after_load_text count_missed_text lookup store delete
all_three = (
  _,
  after_step
      (after_step
        (after_step
          (after_step
            (after_step
              (after_step (after_step start (load 0 (codes "ab") tt refl))
                (load 1 (codes "ab") tt refl))
              (load_text 2 (codes "{}") (codes "}", refl) refl))
            (finish 0 (codes "ab") refl))
          (clean (codes "sab")))
        (finish_text 2 (codes "{}") refl))
      (finish 1 (codes "ab") refl),
)

-- Threads 1 and 2 have their results.
returned_run :
    (all_three.0.place 1 ≡ returned (codes "ab") (ok 3))
    × (all_three.0.place 2 ≡ returned_text (codes "{}") 2)
unfolding after_load count_missed after_load_text count_missed_text lookup store delete
returned_run = (refl, refl)

Reach-IsTrue_example : IsTrue typed_counter AnyText IsBracketed (all_three.0.place 1)
Reach-IsTrue_example =
    Reach-IsTrue typed_counter AnyText IsBracketed all_three.0 1 typed_counter-AreApart all_three.1
