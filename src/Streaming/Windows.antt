-- ===== src/Streaming/Windows.antt =====
-- What is streamed of a window, and what is read of it.
use mcp_xlsm_server.Prelude.{
  ℕ, zero, suc, ◌+◌, ◌-◌, ◌<◌, ◌≤◌, ◌≡◌, refl, Bool, false, List, [], ◌∷◌, ◌++◌, length,
  length-append, length-take, length-drop, take, drop, take-append-drop, min, arith, sym, ap, ◌∙◌,
  map, ltb, Bool-cases, inl, inr, ℤ, pos, add_int64, if◌then◌else◌,
}
use mathlib.Core.List.{append-nil, append_assoc}
use native.Mathlib.Decide.{dec_lt}
use mcp_xlsm_server.Models.{Text, Window}
use mcp_xlsm_server.Workbook.{Workbook}
use mcp_xlsm_server.Streaming.{
  Message, Log, Rows, done, window_start, window_data, window_complete, stream_batches,
  stream_window, read_window, read,
}
use mcp_xlsm_server.Streaming.Batches.{IsBatched}
use mcp_xlsm_server.Streaming.Rows.{write_done}

drop-drop {ℓ} : {A : Type ℓ} (m n : ℕ) (xs : List A) → drop n (drop m xs) ≡ drop (n + m) xs
drop-drop zero n xs = let e : n + zero ≡ n = omega arith in rw e refl
drop-drop (suc m) zero xs = let e : zero + suc m ≡ suc m = omega arith in rw e refl
drop-drop (suc m) (suc n) [] = let e : suc n + suc m ≡ suc (n + suc m) = omega arith in rw e refl
drop-drop (suc m) (suc n) (x ∷ xs) =
    let e : suc n + suc m ≡ suc (suc n + m) = omega arith in rw e (drop-drop m (suc n) xs)

drop_all {ℓ} : {A : Type ℓ} (n : ℕ) (xs : List A) → length xs ≤ n → drop n xs ≡ []
drop_all zero [] h = refl
drop_all zero (x ∷ xs) h = absurd (omega arith)
drop_all (suc n) [] h = refl
drop_all (suc n) (x ∷ xs) h = drop_all n xs (omega arith)

-- No elements have no batches, wherever they begin.
nil-IsBatched {ℓ} :
    {A : Type ℓ} (size i j : ℕ) (parts : List (ℕ × List A))
    → IsBatched size i [] parts
    → IsBatched size j [] parts
nil-IsBatched size i j [] h = refl
nil-IsBatched size i j ((first, batch) ∷ parts) (h1, h2, h3, rest, e, h) =
    let lengths = ap length e ∙ length-append batch rest in absurd (omega arith)

-- The batches of a list, from the one that begins at `i` and the others.
round-IsBatched {ℓ} :
    {A : Type ℓ} (size i end : ℕ) (xs : List A) (parts : List (ℕ × List A))
    → 0 < size
    → i < length xs
    → end ≡ min (length xs) (i + size)
    → IsBatched size (i + size) (drop (i + size) xs) parts
    → IsBatched size i (drop i xs) ((i, take (end - i) (drop i xs)) ∷ parts)
round-IsBatched size i end xs parts h0 h1 h2 p =
    let whole = length-drop i xs in
    let part = length-take (end - i) (drop i xs) in
    (
      refl,
      omega arith,
      omega arith,
      drop (end - i) (drop i xs),
      sym (take-append-drop (end - i) (drop i xs)),
      elim (dec_lt (length xs) (i + size)) [
        | yes q ↦
            let none_left = drop_all (end - i) (drop i xs) (omega arith) in
            rw none_left (
              nil-IsBatched size (i + size) (i + length (take (end - i) (drop i xs))) parts
                (rw (sym (drop_all (i + size) xs (omega arith))) p))
        | no q ↦
            let next : i + length (take (end - i) (drop i xs)) ≡ i + size = omega arith in
            let taken : end - i + i ≡ i + size = omega arith in rw (next, drop-drop, taken) p
      ],
    )

abbrev pub window_messages : ℤ → List (ℕ × Rows) → Log
window_messages start = map (λ part. window_data (add_int64 (pos part.0) start) part.1)

module _ (fails : Log → Message → Bool)
    (accepts : (log : Log) (m : Message) → fails log m ≡ false) where
  stream_batches-IsBatched :
      (fuel : ℕ) (start : ℤ) (window : Rows) (i : ℕ) (log : Log)
      → 0 < fuel
      → length window < i + fuel
      → (parts : List (ℕ × Rows)) × (stream_batches fails fuel start window i log
          ≡ (log ++ window_messages start parts, done))
        × IsBatched 50 i (drop i window) parts
  unfolding stream_batches
  stream_batches-IsBatched zero start window i log h1 h2 = absurd (omega arith)
  stream_batches-IsBatched (suc fuel) start window i log h1 h2 =
      elim (Bool-cases (ltb i (length window))) [
        | inr k ↦ ([], rw (stream_batches, k, append-nil) refl, drop_all i window (ground arith))
        | inl k ↦
            let inside : i < length window = ground arith in
            let end = if ltb (length window) (i + 50) then length window else i + 50 in
            let batch = take (end - i) (drop i window) in
            let m = window_data (add_int64 (pos i) start) batch in
            let (parts, e, p) =
              stream_batches-IsBatched fuel start window (i + 50) (log ++ m ∷ []) (omega arith)
                (omega arith) in
            (
              (i, batch) ∷ parts,
              rw (stream_batches, k, write_done fails accepts)
                  (e
                    ∙ ap (λ l. (l, done))
                        (append_assoc log (m ∷ []) (window_messages start parts))),
              round-IsBatched 50 i end window parts (omega arith) inside (ground arith) p,
            )
      ]

  -- A window that can be read is streamed as its start, with the number of rows, batches of rows and
  -- its end. The batches hold the rows of the window in order, each batch with the index of its first
  -- row, counted from the window's first; none is empty and none has more than 50 rows. The writer
  -- accepts every message.
  pub stream_window-IsBatched :
      (file : Workbook) (name : Text) (w : Window) (window : Rows) (log : Log)
      → read_window file name w ≡ read window
      → (parts : List (ℕ × Rows)) × (stream_window fails file name w log ≡ (
        log
            ++ window_start name w (length window)
              ∷ (window_messages w.start_row parts ++ window_complete ∷ []),
        done,
      ))
        × IsBatched 50 0 window parts
  unfolding stream_window
  stream_window-IsBatched file name w window log h =
      let log1 = log ++ window_start name w (length window) ∷ [] in
      let (parts, e, p) =
        stream_batches-IsBatched (length window + 1) w.start_row window 0 log1 (omega arith)
          (omega arith) in
      (
        parts,
        rw (stream_window, h, write_done fails accepts, e, write_done fails accepts)
            (ap (λ l. (l, done))
              (append_assoc log1 (window_messages w.start_row parts) (window_complete ∷ [])
                ∙ append_assoc log (window_start name w (length window) ∷ [])
                    (window_messages w.start_row parts ++ window_complete ∷ []))),
        p,
      )
