-- ===== src/Merchant/Reconcile/Clients.antt =====
-- The pass over NoDogSplash's list of clients (src/merchant/nds_client_reconciliation.go) spares
-- the customers.
use tollgate_module_basic_go.Prelude.{
  ◌≡◌, ◌≢◌, refl, inl, inr, true, false, Option, none, some, List, [], ◌∷◌, Str, Bool-cases,
}
use tollgate_module_basic_go.Dict.{Dict}
use tollgate_module_basic_go.Valve.State.{Valve}
use tollgate_module_basic_go.Valve.Ndsctl.{Ndsctl}
use tollgate_module_basic_go.Valve.Close.{CloseError, close_gate}
use tollgate_module_basic_go.Valve.Close.Frame.{
  SameClient, SameClient-refl, SameClient-trans, close_gate-other,
}
use tollgate_module_basic_go.Valve.Clients.{ClientEntry, ClientRecord, authorised, list_clients}
use tollgate_module_basic_go.Merchant.State.{Merchant}
use tollgate_module_basic_go.Merchant.Reconcile.{
  knows_client, unknown_clients, close_unknown, reconcile_client_list,
}

-- Every address of a list is unknown to the module.
AllUnknown : Merchant → List Str → Type 0
AllUnknown m [] = Unit
AllUnknown m (mac ∷ macs) = (knows_client mac m ≡ false) × AllUnknown m macs

unknown_clients-AllUnknown :
    (m : Merchant) (rs : List ClientRecord) → AllUnknown m (unknown_clients m rs)
unfolding unknown_clients AllUnknown
unknown_clients-AllUnknown m [] = tt
unknown_clients-AllUnknown m (r ∷ rs) = elim (Bool-cases (authorised r)) [
  | inr not_auth ↦ rw not_auth (unknown_clients-AllUnknown m rs)
  | inl auth ↦ elim (Bool-cases (knows_client r.mac m)) [
    | inl known ↦ rw (auth, known) (unknown_clients-AllUnknown m rs)
    | inr unknown ↦ rw (auth, unknown) (unknown, unknown_clients-AllUnknown m rs)
  ]
]

known-ne :
    (m : Merchant) (mac j : Str) → knows_client mac m ≡ false → knows_client j m ≡ true → mac ≢ j
known-ne m mac j unknown known e = absurd (cc)

sort_close : Option CloseError → Str → List Str × List Str → Valve → (List Str × List Str) × Valve
sort_close err mac sorted v = elim err [
  | none ↦ ((mac ∷ sorted.0, sorted.1), v)
  | some e ↦ ((sorted.0, mac ∷ sorted.1), v)
]

sort_close_lem :
    (err : Option CloseError) (mac : Str) (sorted : List Str × List Str) (v : Valve)
    → (sort_close err mac sorted v).1 ≡ v
unfolding sort_close
sort_close_lem none mac sorted v = refl
sort_close_lem (some e) mac sorted v = refl

close_unknown-other :
    (n : Ndsctl) (m : Merchant) (j : Str) (macs : List Str) (v : Valve)
    → AllUnknown m macs
    → knows_client j m ≡ true
    → SameClient j v (close_unknown n (λ w. w) macs v).1
unfolding close_unknown AllUnknown sort_close
close_unknown-other n m j [] v all known = SameClient-refl j v
close_unknown-other n m j (mac ∷ macs) v all known =
    let v1 = (close_gate n (λ w. w) mac v).1 in
    let r = close_unknown n (λ w. w) macs v1 in
    let all_other : SameClient j v r.1 =
      SameClient-trans j v v1 r.1 (close_gate-other n mac j (known-ne m mac j all.0 known) v)
        (close_unknown-other n m j macs v1 all.1 known) in
    rw (sort_close_lem (close_gate n (λ w. w) mac v).0 mac r.0 r.1) all_other

close_listed :
    Ndsctl → Merchant → Valve → Option (List ClientRecord) → Option (List Str × List Str) × Merchant
close_listed n m1 v records = elim records [
  | none ↦ (none, m1)
  | some rs ↦
      let (sorted, v') = close_unknown n (λ w. w) (unknown_clients m1 rs) v in
      (some sorted, record m1 { valve = v' })
]

close_listed-spares :
    (n : Ndsctl) (j : Str) (m : Merchant) (records : Option (List ClientRecord))
    → knows_client j m ≡ true
    → let m' = (close_listed n m m.valve records).1 in
      (m'.customer_sessions ≡ m.customer_sessions) × SameClient j m.valve m'.valve
unfolding close_listed
close_listed-spares n j m none known = (refl, SameClient-refl j m.valve)
close_listed-spares n j m (some rs) known = (
  refl,
  close_unknown-other n m j (unknown_clients m rs) m.valve (unknown_clients-AllUnknown m rs) known,
)

-- Whatever NoDogSplash lists and answers, a pass over its clients changes no session, and leaves the
-- gate, the baseline, the pending start and the close bookkeeping of every address that the module
-- knows, by a session or by a gate, as they were. Nothing else happens meanwhile.
pub reconcile_client_list-spares :
    (n : Ndsctl) (decode : Str → Option (Dict ClientEntry)) (j : Str) (m : Merchant)
    → knows_client j m ≡ true
    → let m' = (reconcile_client_list n decode (λ w. w) m).1 in
      (m'.customer_sessions ≡ m.customer_sessions) × SameClient j m.valve m'.valve
unfolding reconcile_client_list list_clients knows_client close_listed
reconcile_client_list-spares n decode j m known =
    let (records, v) = list_clients n decode m.valve in
    close_listed-spares n j (record m { valve = v }) records known
