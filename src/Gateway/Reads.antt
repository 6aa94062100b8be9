-- ===== src/Gateway/Reads.antt =====
-- api/models.py: what reading a field comes to.
use log_foundry.Prelude.{
  ◌≤◌, ◌≡◌, ◌↔◌, refl, sym, ap, ◌∙◌, String, Bool, true, false, ◌&&◌, leb, Option, none, some, List,
  length, member, ret, ret-ne-raise, ret_inj, arith,
}
use Prim.Native.String
use log_foundry.Consumers.Payload.{Json, text}
use log_foundry.Gateway.Models.{
  LogEvent, levels, ensure, read, is_service, is_message, read_service, read_level, read_message,
  read_trace_id, text_or_null,
}

pub ensure-ret : {A : Type 0} (ok : Bool) (a b : A) → ensure ok a ≡ ret b → (ok ≡ true) × (a ≡ b)
ensure-ret true a b h = (refl, ret_inj h)
ensure-ret false a b h = absurd (ret-ne-raise (sym h))

pub read-ret : {A : Type 0} (o : Option A) (b : A) → read o ≡ ret b → o ≡ some b
read-ret none b h = absurd (ret-ne-raise (sym h))
read-ret (some a) b h = ap (λ x. some x) (ret_inj h)

pub read_service-ret : (o : Option Json) (t : String) → read_service o ≡ ret t → is_service t ≡ true
unfolding read_service
read_service-ret (some (text t)) u h =
    let (ok, e) = ensure-ret (is_service t) t u h in ap is_service (sym e) ∙ ok
read_service-ret none u h = absurd (ret-ne-raise (sym h))
read_service-ret (some _) u h = absurd (ret-ne-raise (sym h))

pub read_level-ret : (o : Option Json) (t : String) → read_level o ≡ ret t → member t levels ≡ true
unfolding read_level
read_level-ret (some (text t)) u h =
    let (ok, e) = ensure-ret (member t levels) t u h in ap (λ x. member x levels) (sym e) ∙ ok
read_level-ret none u h = absurd (ret-ne-raise (sym h))
read_level-ret (some _) u h = absurd (ret-ne-raise (sym h))

pub read_message-ret : (o : Option Json) (t : String) → read_message o ≡ ret t → is_message t ≡ true
unfolding read_message
read_message-ret (some (text t)) u h =
    let (ok, e) = ensure-ret (is_message t) t u h in ap is_message (sym e) ∙ ok
read_message-ret none u h = absurd (ret-ne-raise (sym h))
read_message-ret (some _) u h = absurd (ret-ne-raise (sym h))

pub is_service_iff :
    (t : String) → (is_service t ≡ true) ↔ ((1 ≤ String.count t) × (String.count t ≤ 256))
unfolding is_service
is_service_iff t = ground arith

pub is_message_iff :
    (t : String) → (is_message t ≡ true) ↔ ((String.count t ≤ 8192) × (String.len t ≤ 8192))
unfolding is_message
is_message_iff t = ground arith

pub size_iff :
    (events : List LogEvent)
    → (leb 1 (length events) && leb (length events) 1000) ≡ true
    → (1 ≤ length events) × (length events ≤ 1000)
size_iff events h = ground arith

-- Reading what was written.
pub ensure-true : {A : Type 0} (ok : Bool) (a : A) → ok ≡ true → ensure ok a ≡ ret a
ensure-true ok a h = rw h refl

pub read_trace_id_lem : (o : Option String) → read_trace_id (some (text_or_null o)) ≡ ret o
unfolding read_trace_id
read_trace_id_lem none = refl
read_trace_id_lem (some t) = refl

pub read_service_lem : (t : String) → is_service t ≡ true → read_service (some (text t)) ≡ ret t
unfolding read_service
read_service_lem t h = ensure-true (is_service t) t h

pub read_level_lem : (t : String) → member t levels ≡ true → read_level (some (text t)) ≡ ret t
unfolding read_level
read_level_lem t h = ensure-true (member t levels) t h

pub read_message_lem : (t : String) → is_message t ≡ true → read_message (some (text t)) ≡ ret t
unfolding read_message
read_message_lem t h = ensure-true (is_message t) t h

pub read_lem : {A : Type 0} (o : Option A) (a : A) → o ≡ some a → read o ≡ ret a
read_lem o a h = ap read h
