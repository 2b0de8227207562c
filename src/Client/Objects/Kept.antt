-- ===== src/Client/Objects/Kept.antt =====
-- A service that was found stays in the dictionary.
use bluepy.Client.Wait.{crashed}
use bluepy.Client.Lookup.{same_text_refl}
use bluepy.Client.Objects.{fetched_uuid, uuid_of_value}
use bluepy.Client.Objects.Service.{Service}
use bluepy.Client.Talk.{done, go_on}
use bluepy.Client.Peripheral.{assertion_error, index_error, key_error, failed, fetched, Fetched}
use bluepy.Client.Objects.Dictionary.{
  ask_service, known, ServiceMap, get_service_by_uuid, put_service, find_service,
}
use bluepy.Common.{
  sym, same_text, ap, refl, Bool-cases, inr, inl, Option-cases, some, ◌⊎◌, Option, Text, List, ◌≡◌,
  [], ◌∷◌,
}
use bluepy.Client.Parse.{ok, value_error, internal_error, Result, PyValue}

pub find_service-put :
    (u : Text) (svc : Service) (services : ServiceMap)
    → find_service u (put_service u svc services) ≡ some svc
unfolding find_service put_service
find_service-put u svc [] = rw (same_text_refl u) refl
find_service-put u svc ((k, old) ∷ services) = elim (Bool-cases (same_text k u)) [
  | inl e ↦ rw (e, e) refl
  | inr e ↦ rw (e, e) (find_service-put u svc services)
]

Result-cases : (r : Result Text) → ((u : Text) × (r ≡ ok u)) ⊎ (fetched_uuid r ≡ failed crashed)
Result-cases (ok u) = inl (u, refl)
Result-cases value_error = inr refl
Result-cases internal_error = inr refl

fetched-injective : {A : Type 0} (a b : A) → fetched a ≡ fetched b → a ≡ b
fetched-injective a b e = cc

-- A call that goes on with a value, and then ends well, had that value.
go_on-done :
    {A B : Type 0} (o : Fetched A) (cmds lines : List Text) (g : A → B) (b : B)
    → (go_on o cmds lines (λ a. done (g a))).outcome ≡ fetched b
    → (a : A) × (g a ≡ b)
go_on-done (fetched a) cmds lines g b e = (a, fetched-injective _ _ e)
go_on-done key_error cmds lines g b e = cc
go_on-done index_error cmds lines g b e = cc
go_on-done assertion_error cmds lines g b e = cc
go_on-done (failed w) cmds lines g b e = cc

module _ (v : PyValue) (u : Text) (good : uuid_of_value v ≡ ok u) where
  get_service_by_uuid-known :
      (services : Option ServiceMap) (svc : Service) (lines : List Text)
      → find_service u (known services) ≡ some svc
      → get_service_by_uuid v services lines ≡ done (known services, svc) lines
  unfolding get_service_by_uuid
  get_service_by_uuid-known services svc lines e = rw (get_service_by_uuid, good, e) refl

  kept :
      (services : Option ServiceMap) (now : ServiceMap) (svc : Service) (lines : List Text)
      → (get_service_by_uuid v services lines).outcome ≡ fetched (now, svc)
      → find_service u now ≡ some svc
  unfolding get_service_by_uuid
  kept services now svc lines e = elim (Option-cases (find_service u (known services))) [
    | inr (old, f) ↦
        let same : fetched (known services, old) ≡ fetched (now, svc) =
          rw (get_service_by_uuid, good, f) at e in
        let pairs = fetched-injective _ _ same in
        let maps : known services ≡ now = ap (λ p. p.0) pairs in
        let services' : old ≡ svc = ap (λ p. p.1) pairs in rw (sym maps, sym services') f
    | inl f ↦
        let (a, pairs) =
          go_on-done (ask_service u lines).outcome (ask_service u lines).written
            (ask_service u lines).left (λ s. (put_service u s (known services), s)) (now, svc)
            (rw (get_service_by_uuid, good, f) at e) in
        let maps : put_service u a (known services) ≡ now = ap (λ p. p.0) pairs in
        let services' : a ≡ svc = ap (λ p. p.1) pairs in
        rw (sym maps, sym services') (find_service-put u a (known services))
  ]

-- A service that `getServiceByUUID` has returned once, asked for or known, is returned again for the
-- same value: the same one, whatever lines there are, with nothing written, no line taken, and the
-- dictionary as it was.
pub get_service_by_uuid-kept :
    (v : PyValue) (services : Option ServiceMap) (now : ServiceMap) (svc : Service)
    (lines later : List Text)
    → (get_service_by_uuid v services lines).outcome ≡ fetched (now, svc)
    → get_service_by_uuid v (some now) later
      ≡ record { outcome = fetched (now, svc); written = []; left = later }
unfolding get_service_by_uuid
get_service_by_uuid-kept v services now svc lines later e = elim (Result-cases (uuid_of_value v)) [
  | inl (u, good) ↦
      get_service_by_uuid-known v u good (some now) svc later
        (kept v u good services now svc lines e)
  | inr bad ↦
      let ended : failed crashed ≡ fetched (now, svc) = rw (get_service_by_uuid, bad) at e in cc
]
