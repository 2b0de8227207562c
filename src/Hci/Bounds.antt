-- ===== src/Hci/Bounds.antt =====
-- What a decoded packet depends on: bytes of `buf` alone.
use bluepy.Hci.Monitor.{report_offset, advertising_at, Mem, handle_event}
use bluepy.Common.{refl, zero, ap₂, suc, arith, gather, sym, ◌≤◌, ◌≡◌, ◌<◌, ◌+◌, ℕ, ◌∷◌}

-- The two memories agree on the first `n` bytes.
abbrev pub Agree : ℕ → Mem → Mem → Type 0
Agree n a b = (i : ℕ) → i < n → a i ≡ b i

gather-Agree :
    (a b : Mem) (n i len : ℕ) → Agree n a b → i + len ≤ n → gather a i len ≡ gather b i len
gather-Agree a b n i zero h l = refl
gather-Agree a b n i (suc len) h l =
    ap₂ ◌∷◌ (h i (omega arith)) (gather-Agree a b n (i + 1) len h (omega arith))

advertising_at-Agree :
    (a b : Mem) (n ev : ℕ)
    → Agree n a b
    → ev + 10 + a (ev + 8) ≤ n
    → advertising_at a ev ≡ advertising_at b ev
unfolding advertising_at
advertising_at-Agree a b n ev h l =
    rw
      (
        sym (h (ev + 8) (omega arith)),
        gather-Agree a b n (ev + 2) 6 h (omega arith),
        h (ev + 1) (omega arith),
        h (ev + 9 + a (ev + 8)) (omega arith),
        gather-Agree a b n (ev + 9) (a (ev + 8)) h (omega arith),
      )
      refl

-- The decoding of an event, of memory whose cells are bytes, depends on no byte beyond the first
-- 269, so that it never looks beyond the end of the buffer, which has more.
pub handle_event-Agree :
    (a b : Mem) → ((i : ℕ) → a i < 256) → Agree 269 a b → handle_event a ≡ handle_event b
unfolding handle_event
handle_event-Agree a b small h =
    rw
      (
        h 0 (omega arith),
        h 2 (omega arith),
        advertising_at-Agree a b 269 report_offset h (let s = small 12 in omega arith),
      )
      refl
