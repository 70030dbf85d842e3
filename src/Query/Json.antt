-- ===== src/Query/Json.antt =====
-- internal/server/query.go: a configuration that is JSON leaves the limits of a query as they are.
use mcp_xlsm_server.Prelude.{
  ◌≡◌, ◌≢◌, refl, ◌∙◌, Option, none, some, [], ◌∷◌, String, ℤ, pos, lookup, store, lookup-store,
  string_eq, str_eq, Bool-cases, inl, inr, All,
}
use mcp_xlsm_server.Query.Parse.{
  Options, Value, int, float64, boolean, text, other, int_option, merge,
}
use mcp_xlsm_server.Query.Handler.{default_config, with_options}

-- No value that JSON decodes to is an `int`.
abbrev pub IsJson : Options → Type 0
IsJson o = All (λ (entry : String × Value). (n : ℤ) → entry.1 ≢ int n) o

lookup-int_option :
    (o : Options) (k : String) (v : Value) (n : ℤ)
    → ((i : ℤ) → v ≢ int i)
    → lookup k o ≡ some v
    → int_option o k n ≡ n
unfolding int_option
lookup-int_option o k (int i) n h e = absurd (h i refl)
lookup-int_option o k (float64 t) n h e = rw (int_option, e) refl
lookup-int_option o k (boolean b) n h e = rw (int_option, e) refl
lookup-int_option o k (text t) n h e = rw (int_option, e) refl
lookup-int_option o k other n h e = rw (int_option, e) refl

store-int_option :
    (o : Options) (j k : String) (v : Value) (n : ℤ)
    → ((i : ℤ) → v ≢ int i)
    → int_option o k n ≡ n
    → int_option (store j v o) k n ≡ n
unfolding int_option
store-int_option o j k v n h e = elim (Bool-cases (str_eq j k)) [
  | inl q ↦ lookup-int_option (store j v o) k v n h (lookup-store j k v o ∙ rw q refl)
  | inr q ↦
      let same : lookup k (store j v o) ≡ lookup k o = lookup-store j k v o ∙ rw q refl in
      rw (int_option, same) e
]

merge-int_option :
    (o new : Options) (k : String) (n : ℤ)
    → IsJson new
    → int_option o k n ≡ n
    → int_option (merge o new) k n ≡ n
unfolding merge
merge-int_option o [] k n h e = e
merge-int_option o ((j, v) ∷ new) k n (h, hs) e =
    merge-int_option (store j v o) new k n hs (store-int_option o j k v n h e)

-- The configuration of a request, where it is JSON, leaves the limits as they are.
with_options-int_option :
    (new : Option Options) (k : String) (n : ℤ)
    → ((o : Options) → new ≡ some o → IsJson o)
    → int_option default_config k n ≡ n
    → int_option (with_options default_config new) k n ≡ n
unfolding with_options
with_options-int_option none k n h e = e
with_options-int_option (some o) k n h e = merge-int_option default_config o k n (h o refl) e

-- The three limits of `execute_query` for a configuration that is JSON.
pub with_options-limits :
    (new : Option Options)
    → ((o : Options) → new ≡ some o → IsJson o)
    → (int_option (with_options default_config new) "max_results" (pos 100)
        ≡ int_option default_config "max_results" (pos 100))
      × (int_option (with_options default_config new) "max_rows_per_sheet" (pos 1000)
          ≡ int_option default_config "max_rows_per_sheet" (pos 1000))
      × (int_option (with_options default_config new) "max_sheets_per_call" (pos 10)
          ≡ int_option default_config "max_sheets_per_call" (pos 10))
unfolding int_option lookup
with_options-limits new h = (
  with_options-int_option new "max_results" (pos 100) h refl,
  with_options-int_option new "max_rows_per_sheet" (pos 1000) h refl,
  with_options-int_option new "max_sheets_per_call" (pos 10) h refl,
)
