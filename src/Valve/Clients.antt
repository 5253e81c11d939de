-- ===== src/Valve/Clients.antt =====
-- NoDogSplash's list of clients (src/valve/nds_clients.go). The decoding of its JSON is a parameter.
use tollgate_module_basic_go.Prelude.{
  ◌+◌, Bool, true, false, ◌&&◌, ◌||◌, Option, none, some, List, [], ◌∷◌, Str, codes, trim, lower,
  str_eq, ltb, ◌==◌, if◌then◌else◌, is_nil,
}
use tollgate_module_basic_go.Dict.{Dict}
use tollgate_module_basic_go.Valve.State.{Valve}
use tollgate_module_basic_go.Valve.Ndsctl.{
  Answer, ok, failed, timed_out, stopped, json_list, Ndsctl,
}

-- The fields of `ndsctlClientEntry` that the module reads, and of `ClientRecord`.
pub record ClientEntry : Type 0 where
  pub mac : Str
  pub state : Str

pub record ClientRecord : Type 0 where
  pub mac : Str
  pub state : Str

-- `Authorised`
unfoldable pub authorised : ClientRecord → Bool
authorised r = str_eq (lower (trim r.state)) (codes "authenticated")

-- `a < b` on strings.
unfoldable pub str_lt : Str → Str → Bool
str_lt [] [] = false
str_lt [] (y ∷ ys) = true
str_lt (x ∷ xs) [] = false
str_lt (x ∷ xs) (y ∷ ys) = ltb x y || (x == y && str_lt xs ys)

insert_record : ClientRecord → List ClientRecord → List ClientRecord
insert_record r [] = r ∷ []
insert_record r (s ∷ rs) = if str_lt s.mac r.mac then s ∷ insert_record r rs else r ∷ s ∷ rs

-- The address of an entry, or the key it stands under.
address_of : Str → Str → Str
address_of key mac = if is_nil mac then key else mac

-- The records in the order of their addresses; an entry without an address is skipped.
records_of : Dict ClientEntry → List ClientRecord
unfolding insert_record address_of
records_of [] = []
records_of ((key, e) ∷ m) =
    let mac = address_of (trim key) (trim e.mac) in
    let rest = records_of m in
    if is_nil mac then rest else insert_record (record { mac = mac; state = trim e.state }) rest

decoded : Option (Dict ClientEntry) → Option (List ClientRecord)
decoded none = none
decoded (some m) = some (records_of m)

-- `parseNdsctlClientList`
unfoldable pub parse_client_list :
    (Str → Option (Dict ClientEntry)) → Str → Option (List ClientRecord)
unfolding decoded records_of
parse_client_list decode output =
    let trimmed = trim output in
    if is_nil trimmed || str_eq trimmed (codes "{}") then some [] else decoded (decode trimmed)

list_of_answer : (Str → Option (Dict ClientEntry)) → Answer → Option (List ClientRecord)
list_of_answer decode (ok output) = parse_client_list decode output
list_of_answer decode (failed output) = none
list_of_answer decode (timed_out output) = none
list_of_answer decode (stopped output) = none

-- `ListClients`; `none` is a list that could not be read.
unfoldable pub list_clients :
    Ndsctl → (Str → Option (Dict ClientEntry)) → Valve → Option (List ClientRecord) × Valve
unfolding list_of_answer
list_clients n decode v =
    (list_of_answer decode (n.answer v.calls json_list), record v { calls = v.calls + 1 })
