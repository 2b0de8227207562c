-- ===== src/Mgmt/Oob/Freed.antt =====
-- Adding out-of-band data frees memory that it must not.
use bluepy.Protocol.{err_no_mgmt, resp_error, err_send_fail}
use bluepy.Protocol.Responses.{resp_error-line}
use bluepy.Mgmt.Request.{submit}
use bluepy.Mgmt.Oob.{
  mgmt_op_add_remote_oob_data, add_remote_oob_data, zeros, Keys, uninitialised, dangling, copy_16,
  send_oob, decode_rand, decode_keys, pointer, decode_arg, free_slot, Slot,
}
use bluepy.World.{
  M, on_option, get, ◌>>◌, ◌>>=◌, pure, ret, undefined, Buffer, Ptr, Event, World, steps, require,
  Env,
}
use bluepy.Common.{
  ◌∙◌, Option, Bool, inr, inl, Bool-cases, false, not, ◌==◌, ◌++◌, byte_at, arith, ◌+◌, gather,
  true, leb, refl, none, length, ℕ, ◌≤◌, ◌≡◌, some, List, Text, ◌∷◌,
}

-- `g_free` of that variable is undefined.
abbrev IsSpoiled : Slot → Type 0
IsSpoiled uninitialised = Unit
IsSpoiled (pointer o) = ⊥
IsSpoiled (dangling none) = ⊥
IsSpoiled (dangling (some b)) = Unit

free_slot-undefined : (s : Slot) (w : World) → IsSpoiled s → free_slot s w ≡ undefined w
unfolding free_slot require
free_slot-undefined uninitialised w h = refl
free_slot-undefined (pointer o) w h = absurd h
free_slot-undefined (dangling none) w h = absurd h
free_slot-undefined (dangling (some b)) w h = refl

freed :
    (s : Slot) (sent : Bool) (w : World)
    → IsSpoiled s
    → (free_slot s >>= λ _. pure sent) w ≡ undefined w
unfolding ◌>>=◌
freed s sent w h = rw (◌>>=◌, free_slot-undefined s w h) refl

bind-ret :
    {A B : Type 0} (m : M A) (f : A → M B) (w : World) (a : A) (v : World)
    → m w ≡ ret a v
    → (m >>= f) w ≡ f a v
unfolding ◌>>=◌
bind-ret m f w a v e = rw (◌>>=◌, e) refl

-- The library decodes the text into memory of 16 bytes at least.
abbrev pub DecodesKey : Env → Text → Type 0
DecodesKey env s =
    (es : List Event)
    → (b : Buffer) × (((env.attr_data es s).0 == 0) ≡ false)
      × ((env.attr_data es s).1 ≡ some b)
      × (leb 16 b.size ≡ true)

abbrev no_keys : Slot → Keys
no_keys oob = record { hash = zeros; rand = zeros; oob = oob }

no_pair :
    (env : Env) (oob : Slot) (w : World)
    → decode_keys env none none oob w ≡ ret (some (no_keys oob)) w
unfolding decode_keys pure
no_pair env oob w = refl

module _ (env : Env) where
  decode_arg-key :
      (s : Text) (w : World)
      → DecodesKey env s
      → (b : Buffer) × (decode_arg env s w ≡ ret (some (some b)) w) × (leb 16 b.size ≡ true)
  unfolding decode_arg steps
  decode_arg-key s w h =
      let (b, some_bytes, e, big) = h w.trace in (b, rw (some_bytes, e) refl, big)

  decode_rand-decodes :
      (hash rand : Text) (w : World)
      → DecodesKey env rand
      → 15 ≤ length rand
      → (k : Keys) × (v : World) × (decode_rand env hash rand w ≡ ret (some k) v) × IsSpoiled k.oob
  unfolding decode_rand free_slot steps
  decode_rand-decodes hash rand w h long =
      let (b, e, big) = decode_arg-key rand w h in
      let enough : leb 16 (length rand + 1) ≡ true = ground arith in
      let k : Keys = record {
        hash = hash;
        rand = gather (byte_at rand) 0 16;
        oob = dangling (some b);
      } in
      (
        k,
        record w { trace = Event.free (some b.addr) ∷ w.trace },
        rw (decode_rand, ◌>>=◌, e, enough) refl,
        tt,
      )

  decode_keys-decodes :
      (hash rand : Text) (oob : Slot) (w : World)
      → DecodesKey env hash
      → DecodesKey env rand
      → 15 ≤ length rand
      → (k : Keys) × (v : World) × (decode_keys env (some hash) (some rand) oob w ≡ ret (some k) v)
        × IsSpoiled k.oob
  unfolding decode_keys copy_16 free_slot steps
  decode_keys-decodes hash rand oob w h r long =
      let (b, e, big) = decode_arg-key hash w h in
      let (k, v, f, spoiled) =
        decode_rand-decodes (gather b.mem 0 16) rand
          (record w { trace = Event.free (some b.addr) ∷ w.trace }) r long in
      (k, v, rw (decode_keys, ◌>>=◌, e, big) f, spoiled)

  send_oob-undefined :
      (master : Ptr) (bdaddr : Text) (addr_type : ℕ) (k192 k256 : Keys) (w : World)
      → IsSpoiled k256.oob
      → (v : World) × (send_oob env master bdaddr addr_type k192 k256 w ≡ undefined v)
  unfolding send_oob submit steps
  send_oob-undefined master bdaddr addr_type k192 k256 w h =
      let cp = bdaddr ++ addr_type ∷ (k192.hash ++ k192.rand ++ k256.hash ++ k256.rand) in
      let sent =
        not (env.mgmt_send w.trace master mgmt_op_add_remote_oob_data w.mgmt_ind cp == 0) in
      let u : World = record w {
        trace = Event.mgmt_send master mgmt_op_add_remote_oob_data w.mgmt_ind cp ∷ w.trace;
      } in
      elim (Bool-cases sent) [
        | inl e ↦ (u, rw e (freed k256.oob true u h))
        | inr e ↦
            let (es, eq, shown, only) = (resp_error-line err_send_fail).emits u in
            let v : World = record u { trace = es ++ u.trace } in
            (v, rw (e, ◌>>=◌, ◌>>◌, eq) (freed k256.oob sent v h))
      ]

  sent_after :
      (master : Ptr) (bdaddr : Text) (addr_type : ℕ) (h192 r192 h256 r256 : Option Text)
      (k192 k256 : Keys) (w u v x : World)
      → w.mgmt_master ≡ some master
      → decode_keys env h192 r192 uninitialised w ≡ ret (some k192) u
      → decode_keys env h256 r256 k192.oob u ≡ ret (some k256) v
      → send_oob env master bdaddr addr_type k192 k256 v ≡ undefined x
      → add_remote_oob_data env bdaddr addr_type h192 r192 h256 r256 w ≡ undefined x
  unfolding add_remote_oob_data get on_option
  sent_after master bdaddr addr_type h192 r192 h256 r256 k192 k256 w u v x m a b c =
      let send = λ (k k' : Keys). send_oob env master bdaddr addr_type k k' in
      let then_send = λ (k : Keys) (o : Option Keys). on_option o (pure false) (send k) in
      let second = λ (k : Keys). decode_keys env h256 r256 k.oob >>= then_send k in
      let first_keys = decode_keys env h192 r192 uninitialised in
      let both = first_keys >>= λ (o : Option Keys). on_option o (pure false) second in
      let whole = λ (u' : World).
        on_option u'.mgmt_master (do resp_error err_no_mgmt; pure true)
          (λ master'. first_keys >>= λ (o : Option Keys). on_option o (pure false) (λ k.
            decode_keys env h256 r256 k.oob >>= λ (o' : Option Keys).
            on_option o' (pure false) (λ k'. send_oob env master' bdaddr addr_type k k'))) in
      let start : add_remote_oob_data env bdaddr addr_type h192 r192 h256 r256 w ≡ whole w w =
        bind-ret (get (λ w'. w')) whole w w w refl in
      let known : whole w w ≡ both w = rw m refl in
      let first : both w ≡ second k192 u =
        bind-ret first_keys (λ o. on_option o (pure false) second) w (some k192) u a in
      let last : second k192 u ≡ send k192 k256 v =
        bind-ret (decode_keys env h256 r256 k192.oob) (then_send k192) u (some k256) v b in
      start ∙ known ∙ first ∙ last ∙ c

  -- The library decodes both keys of a pair into memory of 16 bytes at least, the second is written
  -- with at least 15 characters, and there is the management interface. Then adding out-of-band data,
  -- with the pair as that of 192 or that of 256 bits, or with no pair at all, is undefined, whether the
  -- request can be sent or not: it frees memory that has been freed before, or a pointer that was never
  -- set.
  pub add_remote_oob_data-undefined :
      (master : Ptr) (bdaddr hash rand : Text) (addr_type : ℕ) (w : World)
      → w.mgmt_master ≡ some master
      → DecodesKey env hash
      → DecodesKey env rand
      → 15 ≤ length rand
      → ((v : World) × (add_remote_oob_data env bdaddr addr_type (some hash) (some rand) none none w
            ≡ undefined v))
        × ((v : World) × (add_remote_oob_data env bdaddr addr_type none none
                (some hash)
                (some rand)
                w
              ≡ undefined v))
        × ((v : World) × (add_remote_oob_data env bdaddr addr_type none none none none w
              ≡ undefined v))
  add_remote_oob_data-undefined master bdaddr hash rand addr_type w m h r long =
      let (k, u, e, spoiled) = decode_keys-decodes hash rand uninitialised w h r long in
      let (v1, e1) = send_oob-undefined master bdaddr addr_type k (no_keys k.oob) u spoiled in
      let (v2, e2) =
        send_oob-undefined master bdaddr addr_type (no_keys uninitialised) k u spoiled in
      let (v3, e3) =
        send_oob-undefined master bdaddr addr_type (no_keys uninitialised) (no_keys uninitialised) w
          tt in
      (
        (v1, sent_after _ _ _ _ _ _ _ _ _ _ _ _ _ m e (no_pair env k.oob u) e1),
        (v2, sent_after _ _ _ _ _ _ _ _ _ _ _ _ _ m (no_pair env uninitialised w) e e2),
        (
          v3,
          sent_after _ _ _ _ _ _ _ _ _ _ _ _ _ m (no_pair env uninitialised w)
              (no_pair env uninitialised w) e3,
        ),
      )
