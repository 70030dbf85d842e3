-- ===== src/Token/Threads.antt =====
-- Threads that share a token counter, as the requests over HTTP do. Its cache is a `sync.Map`, which
-- has no lock around a whole call: `Count` and `CountString` read it, count, and then write it, and
-- `CleanCache` deletes one key after the other.
use mathlib.Core.Path.{subst}
use mcp_xlsm_server.Prelude.{
  ap, ℕ, ◌==◌, ◌≡◌, ◌≢◌, refl, sym, ◌∙◌, none, some, arith, lookup, store, delete, lookup-delete,
  lookup-store, nats_eq, nats_beq, nats_beq_iff, set_at, Option-cases, inl, inr, Bool-cases, [],
}
use mcp_xlsm_server.Models.{Text}
use mcp_xlsm_server.Token.{Encoder, Counter, Result, ok, err, marshal_failed, count, count_string}
use mcp_xlsm_server.Token.Counts.{true_count, IsExact, KeysDetermine, store-IsExact}

-- Where a thread is: outside; in `Count` of a value or `CountString` of a text behind the read of the
-- cache, which found nothing; or at the end of the call, with the result.
pub data Place (D : Type 0) : Type 0 where
  idle : Place D
  missed : D → Place D
  returned : D → Result ℕ → Place D
  missed_text : Text → Place D
  returned_text : Text → ℕ → Place D

pub record System (D : Type 0) : Type 0 where
  pub cache : Counter
  pub place : ℕ → Place D

module _ {D : Type 0} (encoder : Encoder D) where
  open encoder use {key, marshal, token_length}

  -- Behind the read of the cache.
  unfoldable pub after_load : D → Counter → Place D
  after_load d c = elim (lookup (key d) c) [ none ↦ missed d | some n ↦ returned d (ok n) ]

  -- The rest of `Count`, which writes the cache if the value has a JSON.
  unfoldable pub count_missed : D → Counter → Counter × Result ℕ
  count_missed d c = elim (marshal d) [
    | none ↦ (c, err marshal_failed)
    | some json ↦ (store (key d) (token_length json) c, ok (token_length json))
  ]

  unfoldable pub after_load_text : Text → Counter → Place D
  after_load_text t c = elim (lookup t c) [ none ↦ missed_text t | some n ↦ returned_text t n ]

  -- The rest of `CountString`.
  unfoldable pub count_missed_text : Text → Counter → Counter × ℕ
  count_missed_text t c = (store t (token_length t) c, token_length t)

  -- Without a step in between, the two steps are `Count`, and those for a text `CountString`.
  count-count_missed :
      (d : D) (c : Counter) → lookup (key d) c ≡ none → count encoder d c ≡ count_missed d c
  unfolding count count_missed
  count-count_missed d c h = rw (count, h) refl

  count_string-count_missed_text :
      (t : Text) (c : Counter)
      → lookup t c ≡ none
      → count_string encoder t c ≡ count_missed_text t c
  unfolding count_string count_missed_text
  count_string-count_missed_text t c h = rw (count_string, h) refl

-- The threads count the values that `Counted` holds of and the texts that `Plain` holds of.
module _ {D : Type 0} (encoder : Encoder D) (Counted : D → Type 0) (Plain : Text → Type 0) where
  open encoder use {key, marshal, token_length}

  pub data Step (s : System D) : System D → Type 0 where
    load :
        (i : ℕ) (d : D)
        → Counted d
        → s.place i ≡ idle
        → Step s (record s { place = set_at s.place i (after_load encoder d s.cache) })
    finish :
        (i : ℕ) (d : D)
        → s.place i ≡ missed d
        → Step s (record {
          cache = (count_missed encoder d s.cache).0;
          place = set_at s.place i (returned d (count_missed encoder d s.cache).1);
        })
    leave :
        (i : ℕ) (d : D) (r : Result ℕ)
        → s.place i ≡ returned d r
        → Step s (record s { place = set_at s.place i idle })
    load_text :
        (i : ℕ) (t : Text)
        → Plain t
        → s.place i ≡ idle
        → Step s (record s { place = set_at s.place i (after_load_text encoder t s.cache) })
    finish_text :
        (i : ℕ) (t : Text)
        → s.place i ≡ missed_text t
        → Step s (record {
          cache = (count_missed_text encoder t s.cache).0;
          place = set_at s.place i (returned_text t (count_missed_text encoder t s.cache).1);
        })
    leave_text :
        (i : ℕ) (t : Text) (n : ℕ)
        → s.place i ≡ returned_text t n
        → Step s (record s { place = set_at s.place i idle })
    clean : (k : Text) → Step s (record s { cache = delete k s.cache })

  -- Any number of threads, over an empty cache at the start.
  pub data Reach : System D → Type 0 where
    start : Reach (record { cache = []; place = λ _. idle })
    after_step : {s t : System D} → Reach s → Step s t → Reach t

  -- What the values and the texts must be: values that print alike have the same count, and no text
  -- is what a value prints.
  pub record AreApart : Type 0 where
    pub determined : KeysDetermine encoder Counted
    pub apart : (d : D) (t : Text) → Counted d → Plain t → key d ≢ t

  -- A result is that of the tokenizer.
  abbrev pub IsTrue : Place D → Type 0
  IsTrue (returned d r) = r ≡ true_count encoder d
  IsTrue (returned_text t n) = n ≡ token_length t
  IsTrue _ = Unit

  -- Moreover, what is counted is one of the values or of the texts.
  abbrev IsRight : Place D → Type 0
  IsRight (missed d) = Counted d
  IsRight (missed_text t) = Plain t
  IsRight p = IsTrue p

  -- Every count that the cache has for one of the texts is the text's.
  abbrev AreExact : Counter → Type 0
  AreExact c = (t : Text) (n : ℕ) → Plain t → lookup t c ≡ some n → n ≡ token_length t

  record IsSound (s : System D) : Type 0 where
    exact : IsExact encoder Counted s.cache
    texts : AreExact s.cache
    right_at : (i : ℕ) → IsRight (s.place i)

  IsRight-IsTrue : (p : Place D) → IsRight p → IsTrue p
  IsRight-IsTrue idle h = tt
  IsRight-IsTrue (missed d) h = tt
  IsRight-IsTrue (returned d r) h = h
  IsRight-IsTrue (missed_text t) h = tt
  IsRight-IsTrue (returned_text t n) h = h

  set_at-IsRight :
      (f : ℕ → Place D) (i : ℕ) (p : Place D)
      → ((j : ℕ) → IsRight (f j))
      → IsRight p
      → (j : ℕ) → IsRight (set_at f i p j)
  set_at-IsRight f i p all here j = elim (Bool-cases (j == i)) [
    | inl e ↦ rw e here
    | inr e ↦ rw e (all j)
  ]

  after_load-IsRight :
      (d : D) (c : Counter)
      → Counted d
      → IsExact encoder Counted c
      → IsRight (after_load encoder d c)
  unfolding after_load
  after_load-IsRight d c one x = elim (Option-cases (lookup (key d) c)) [
    | inl h ↦ rw (after_load, h) one
    | inr (n, h) ↦ rw (after_load, h) (sym (x d n one h))
  ]

  after_load_text-IsRight :
      (t : Text) (c : Counter) → Plain t → AreExact c → IsRight (after_load_text encoder t c)
  unfolding after_load_text
  after_load_text-IsRight t c one x = elim (Option-cases (lookup t c)) [
    | inl h ↦ rw (after_load_text, h) one
    | inr (n, h) ↦ rw (after_load_text, h) (x t n one h)
  ]

  -- What is stored under another key does not matter.
  lookup-store_ne :
      (k j : Text) (n m : ℕ) (c : Counter)
      → k ≢ j
      → lookup j (store k n c) ≡ some m
      → lookup j c ≡ some m
  lookup-store_ne k j n m c ne h =
      let found = sym (lookup-store k j n c) ∙ h in
      elim (Bool-cases (nats_beq k j)) [
        | inl e ↦ absurd (ne ((nats_beq_iff k j).0 e))
        | inr e ↦ ground (arith, found, e)
      ]

  count_missed-IsExact :
      AreApart
      → (d : D) (c : Counter) → Counted d
      → IsExact encoder Counted c
      → AreExact c
      → IsExact encoder Counted (count_missed encoder d c).0
        × AreExact (count_missed encoder d c).0
        × ((count_missed encoder d c).1 ≡ true_count encoder d)
  unfolding count_missed
  count_missed-IsExact fit d c one x texts = elim (Option-cases (marshal d)) [
    | inl k ↦ rw (count_missed, k) (x, texts, rw (true_count, k) refl)
    | inr (json, k) ↦
        let counted : true_count encoder d ≡ ok (token_length json) = rw (true_count, k) refl in
        let n = token_length json in
        rw (count_missed, k)
          (
            store-IsExact encoder Counted fit.determined d n c one counted x,
            λ t m plain h.
                texts t m plain (lookup-store_ne (key d) t n m c (fit.apart d t one plain) h),
            sym counted,
          )
  ]

  count_missed_text-IsExact :
      AreApart
      → (t : Text) (c : Counter) → Plain t
      → IsExact encoder Counted c
      → AreExact c
      → IsExact encoder Counted (count_missed_text encoder t c).0
        × AreExact (count_missed_text encoder t c).0
  unfolding count_missed_text
  count_missed_text-IsExact fit t c plain x texts = (
    λ d m one h.
        x d m one
          (lookup-store_ne t (key d) (token_length t) m c (λ e. fit.apart d t one plain (sym e)) h),
    λ j m other h.
        let found = sym (lookup-store t j (token_length t) c) ∙ h in
        elim (Bool-cases (nats_beq t j)) [
          | inr k ↦ texts j m other (ground (arith, found, k))
          | inl k ↦
              let equal = (nats_beq_iff t j).0 k in
              let stored : some (token_length t) ≡ some m = ground (arith, found, k) in
              let known : token_length t ≡ m = ground (arith, stored) in
              sym known ∙ ap token_length equal
        ],
  )

  Step-IsSound : {s t : System D} → AreApart → Step s t → IsSound s → IsSound t
  unfolding count_missed_text
  Step-IsSound {s} fit (load i d one free) h = record {
    exact = h.exact;
    texts = h.texts;
    right_at = set_at-IsRight s.place i _ h.right_at (after_load-IsRight d s.cache one h.exact);
  }
  Step-IsSound {s} fit (finish i d at) h =
      let one : Counted d = subst IsRight at (h.right_at i) in
      let (exact, texts, counted) = count_missed-IsExact fit d s.cache one h.exact h.texts in
      record {
        exact = exact;
        texts = texts;
        right_at = set_at-IsRight s.place i _ h.right_at counted;
      }
  Step-IsSound {s} fit (leave i d r at) h = record {
    exact = h.exact;
    texts = h.texts;
    right_at = set_at-IsRight s.place i idle h.right_at tt;
  }
  Step-IsSound {s} fit (load_text i t plain free) h = record {
    exact = h.exact;
    texts = h.texts;
    right_at =
        set_at-IsRight s.place i _ h.right_at (after_load_text-IsRight t s.cache plain h.texts);
  }
  Step-IsSound {s} fit (finish_text i t at) h =
      let plain : Plain t = subst IsRight at (h.right_at i) in
      let (exact, texts) = count_missed_text-IsExact fit t s.cache plain h.exact h.texts in
      record { exact = exact; texts = texts; right_at = set_at-IsRight s.place i _ h.right_at refl }
  Step-IsSound {s} fit (leave_text i t n at) h = record {
    exact = h.exact;
    texts = h.texts;
    right_at = set_at-IsRight s.place i idle h.right_at tt;
  }
  Step-IsSound {s} fit (clean k) h = record {
    exact = λ d n one g. ground (arith, lookup-delete k (key d) s.cache, h.exact d n one);
    texts = λ t n plain g. ground (arith, lookup-delete k t s.cache, h.texts t n plain);
    right_at = h.right_at;
  }

  Reach-IsSound : {s : System D} → AreApart → Reach s → IsSound s
  unfolding lookup
  Reach-IsSound fit start = record {
    exact = λ d n one h. ground (arith, h);
    texts = λ t n plain h. ground (arith, h);
    right_at = λ i. tt;
  }
  Reach-IsSound fit (after_step r step) = Step-IsSound fit step (Reach-IsSound fit r)

  -- However the calls of any number of threads on a counter interleave, with keys deleted from its
  -- cache at any time: each `Count` that has returned gave what counting the value without a cache
  -- gives, and each `CountString` the count of its text. Of the values that are counted, those that
  -- print alike must have the same count, and none may print as a text that is counted does.
  pub Reach-IsTrue : (s : System D) (i : ℕ) → AreApart → Reach s → IsTrue (s.place i)
  Reach-IsTrue s i fit reach = IsRight-IsTrue (s.place i) ((Reach-IsSound fit reach).right_at i)
