-- ===== src/Security/Trust/Rotation.antt =====
-- A certificate rotation: which identity is accepted, and until when.
use penguin_redis.Prelude.{ℕ, ◌<◌, ◌≡◌, ◌↔◌, ◌⊎◌, true, Option, none, some, arith, bytes_eq_iff}
use penguin_redis.Security.Trust.{
  TlsIdentity, RotationWindow, tls_eq, judge, judge_previous, accepts,
}
use penguin_redis.Security.Trust.TlsIdentity.{no_tls, ca, spki_pin}

pub tls_eq_iff : (s t : TlsIdentity) → (tls_eq s t ≡ true) ↔ (s ≡ t)
unfolding tls_eq
tls_eq_iff no_tls no_tls = ground arith
tls_eq_iff no_tls (ca d t) = ground arith
tls_eq_iff no_tls (spki_pin q) = ground arith
tls_eq_iff (ca c s) no_tls = ground arith
tls_eq_iff (ca c s) (ca d t) = ground (arith, bytes_eq_iff c d, bytes_eq_iff s t)
tls_eq_iff (ca c s) (spki_pin q) = ground arith
tls_eq_iff (spki_pin p) no_tls = ground arith
tls_eq_iff (spki_pin p) (ca d t) = ground arith
tls_eq_iff (spki_pin p) (spki_pin q) = ground (arith, bytes_eq_iff p q)

judge_previous-accepts :
    (previous : Option TlsIdentity) (until : ℕ) (presented : TlsIdentity) (now_ms : ℕ)
    → (accepts (judge_previous previous until presented now_ms) ≡ true)
      ↔ ((previous ≡ some presented) × (now_ms < until))
unfolding judge_previous accepts
judge_previous-accepts none until presented now_ms = ground arith
judge_previous-accepts (some p) until presented now_ms = ground (arith, tls_eq_iff p presented)

-- A presented identity is accepted exactly when it is the current one, or it is the one being
-- rotated from and the window has not closed.
pub judge-accepts_iff :
    (w : RotationWindow) (presented : TlsIdentity) (now_ms : ℕ)
    → (accepts (judge w presented now_ms) ≡ true)
      ↔ ((presented ≡ w.current) ⊎ ((w.previous ≡ some presented) × (now_ms < w.previous_until_ms)))
unfolding judge judge_previous accepts
judge-accepts_iff w presented now_ms = ground (
  arith,
  tls_eq_iff presented w.current,
  judge_previous-accepts w.previous w.previous_until_ms presented now_ms,
)
