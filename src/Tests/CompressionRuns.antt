-- ===== src/Tests/CompressionRuns.antt =====
-- The compression: runs with a small printer of values and codecs that write a first byte, and the
-- theorems at them.
use mcp_xlsm_server.Prelude.{
  ℕ, ◌≡◌, ◌≤◌, ◌<◌, ◌*◌, ◌/◌, ◌⊎◌, refl, true, false, Option, none, some, [], ◌∷◌, ◌++◌, length,
  take, lookup, pos, store, nats_eq, get_elem?,
}
use mcp_xlsm_server.Compression.Manager.{
  Codecs, gzip, optimize_response, suggest_compression_method, decompress, apply_method,
  choose_method, compress_gzip,
}
use mcp_xlsm_server.Compression.Maps.{IsFrom, find-truncate_data}
use mcp_xlsm_server.Compression.RoundTrip.{
  decompress-optimize_response, suggest_compression_method-optimize_response,
}
use mcp_xlsm_server.Compression.Strings.{truncate_text-take}
use mcp_xlsm_server.Compression.Truncation.{
  truncate_text, truncate_data, truncation_mark, keep_priority, keep_priorities, by_count, mark,
  cut_text, last_index,
}
use mcp_xlsm_server.Compression.Values.{
  Value, Items, Fields, object, array, string, integer, boolean, other, nil, cons, end, field, find,
  put,
}
use mcp_xlsm_server.Decimal.{codes}
use mcp_xlsm_server.Models.{Text}
use mcp_xlsm_server.Token.{Encoder, count, count_string, ok}

unfoldable mutual
  print : Value → Text
  print (object fields) = 123 ∷ print_fields fields
  print (array items) = 91 ∷ print_items items
  print (string t) = 34 ∷ t ++ 34 ∷ []
  print (integer n) = 48 ∷ []
  print (boolean true) = codes "true"
  print (boolean false) = codes "false"
  print (other t) = t

  print_items : Items → Text
  print_items nil = 93 ∷ []
  print_items (cons v items) = print v ++ 44 ∷ print_items items

  print_fields : Fields → Text
  print_fields end = 125 ∷ []
  print_fields (field k v fields) = k ++ 58 ∷ print v ++ 44 ∷ print_fields fields

abbrev printer : Encoder Value
printer = record { key = print; marshal = λ v. some (print v); token_length = length }

abbrev first_byte_off : Text → Option Text
first_byte_off [] = none
first_byte_off (b ∷ s) = some s

abbrev first_byte : Codecs
first_byte = record {
  gzip = λ s. 31 ∷ s;
  gunzip = first_byte_off;
  brotli = λ level s. level ∷ s;
  unbrotli = first_byte_off;
  gunzip-gzip = λ s. refl;
  unbrotli-brotli = λ level s. refl;
}

abbrev seven_tenths : ℕ → ℕ
seven_tenths n = n * 7 / 10

-- Five tokens of a limit of eight.
gzip_run :
    (optimize_response first_byte printer seven_tenths (string (codes "abc")) (pos 8) []).1
    ≡ ok (31 ∷ codes "\"abc\"" ++ 10 ∷ [], gzip)
unfolding optimize_response count lookup print apply_method choose_method compress_gzip
gzip_run = refl

decompress-optimize_response_example :
    decompress first_byte printer (31 ∷ codes "\"abc\"" ++ 10 ∷ []) gzip
    ≡ some (codes "\"abc\"" ++ 10 ∷ [])
unfolding print
decompress-optimize_response_example =
    decompress-optimize_response first_byte printer seven_tenths (string (codes "abc")) (pos 8) []
      (31 ∷ codes "\"abc\"" ++ 10 ∷ []) gzip gzip_run

suggested_run :
    (suggest_compression_method first_byte printer (string (codes "abc")) (pos 8) []).1 ≡ ok gzip
suggested_run =
    suggest_compression_method-optimize_response first_byte printer seven_tenths
      (string (codes "abc")) (pos 8) [] (31 ∷ codes "\"abc\"" ++ 10 ∷ []) gzip gzip_run

truncate_text_run : truncate_text 9 (codes "one two") 1 ≡ codes "one... [truncated]"
unfolding truncate_text cut_text last_index
truncate_text_run = refl

truncate_text-take_example :
    (((9 ≤ 1) ⊎ (length (codes "one two") ≤ 4))
      × (truncate_text 9 (codes "one two") 1 ≡ codes "one two"))
    ⊎ ((1 < 9)
        × (4 < length (codes "one two"))
        × ((kept : ℕ) × (truncate_text 9 (codes "one two") 1
              ≡ take kept (codes "one two") ++ truncation_mark)
            × ((kept ≡ 4)
                ⊎ ((2 < kept) × (kept < 4) × (get_elem? (codes "one two") kept ≡ some 32)))))
truncate_text-take_example = truncate_text-take 9 (codes "one two") 1

-- Three items of three tokens each, and a printer for keys as Go has it, which puts no quotes.
abbrev three_items : Items
three_items = cons (string (codes "a")) (cons (string (codes "b")) (cons (string (codes "c")) nil))

abbrev bare : Value → Text
bare (string t) = codes "string_" ++ t
bare (array (cons (string t) nil)) = codes "[]interface {}_[" ++ t ++ codes "]"
bare (array (cons (string t) (cons (string u) nil))) =
    codes "[]interface {}_[" ++ t ++ codes " " ++ u ++ codes "]"
bare v = print v

abbrev go_printer : Encoder Value
go_printer = record { key = bare; marshal = λ v. some (print v); token_length = length }

-- Two arrays that print alike and have different counts, which are no strings.
bare_run :
    (bare (array (cons (string (codes "a b")) nil))
      ≡ bare (array (cons (string (codes "a")) (cons (string (codes "b")) nil))))
bare_run = refl

-- The strings are the values that are counted.
abbrev IsString : Value → Type 0
IsString v = (t : Text) × (v ≡ string t)

abbrev two_fields : Fields
two_fields =
    field (codes "summary") (string (codes "a"))
      (field (codes "x") (string (codes "abcdefghijkl")) end)

find-truncate_data_example :
    IsFrom printer two_fields (codes "x") (string (codes "abcd... [truncated]"))
unfolding print find put truncate_data keep_priority keep_priorities count count_string lookup store
    by_count truncate_text cut_text last_index mark
find-truncate_data_example =
    find-truncate_data printer two_fields 4 [] (codes "x") (string (codes "abcd... [truncated]"))
      (refl, (refl, tt)) refl refl
