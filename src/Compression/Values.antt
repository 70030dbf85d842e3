-- ===== src/Compression/Values.antt =====
-- The data of an answer, `interface{}` in the code. The fields of a map stand in the order in which
-- the loop over it visits them.
use mcp_xlsm_server.Prelude.{ℕ, suc, Bool, Option, none, some, nats_beq, if◌then◌else◌}
use mcp_xlsm_server.Models.{Text}

mutual
  pub data Value : Type 0 where
    object : Fields → Value
    array : Items → Value
    string : Text → Value
    integer : ℕ → Value
    boolean : Bool → Value
    -- Any other value, by what it prints.
    other : Text → Value

  pub data Items : Type 0 where
    nil : Items
    cons : Value → Items → Items

  pub data Fields : Type 0 where
    end : Fields
    field : Text → Value → Fields → Fields

abbrev pub item_count : Items → ℕ
item_count nil = 0
item_count (cons v items) = suc (item_count items)

abbrev pub field_count : Fields → ℕ
field_count end = 0
field_count (field k v fields) = suc (field_count fields)

-- m[k]
unfoldable pub find : Text → Fields → Option Value
find k end = none
find k (field j v fields) = if nats_beq j k then some v else find k fields

-- m[k] = v
unfoldable pub put : Text → Value → Fields → Fields
put k v end = field k v end
put k v (field j w fields) = if nats_beq j k then field k v fields else field j w (put k v fields)

-- The items of one list, then those of another.
abbrev pub join : Items → Items → Items
join nil items = items
join (cons v rest) items = cons v (join rest items)

abbrev pub single : Value → Items
single v = cons v nil
