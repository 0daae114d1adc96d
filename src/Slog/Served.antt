-- ===== src/Slog/Served.antt =====
-- middleware.go: the status that is recorded.
use dllog.Base.{
  eq_of_==, ◌≡◌, Int64, false, List, [], ◌∷◌, if◌then◌else◌, ◌==◌, refl, inl, inr, Bool-cases,
}
use dllog.Slog.Middleware.{status_ok, StatusWriter, write_header, write_body, status_code}

-- What a handler calls on its response.
pub data Call : Type 0 where
  header : Int64 → Call
  body : Call

unfoldable pub respond : List Call → StatusWriter → StatusWriter
respond [] w = w
respond (header status ∷ cs) w = respond cs (write_header w status)
respond (body ∷ cs) w = respond cs (write_body w)

-- The first status given, or the implicit one if the body or the end comes first.
unfoldable pub first_status : List Call → Int64
first_status [] = status_ok
first_status (header status ∷ cs) = if status == 0 then first_status cs else status
first_status (body ∷ cs) = status_ok

respond-set : (cs : List Call) (w : StatusWriter) → (w.status == 0) ≡ false → respond cs w ≡ w
unfolding respond write_header write_body
respond-set [] w set = refl
respond-set (header status ∷ cs) w set = rw set (respond-set cs w set)
respond-set (body ∷ cs) w set = rw set (respond-set cs w set)

-- Whatever a handler calls on its response, in whatever order, the status that the trip predicate
-- sees is the first that is not zero, or 200 if a body or the end comes first.
pub status_code-respond :
    (cs : List Call) → status_code (respond cs (record { status = 0 })) ≡ first_status cs
unfolding respond first_status status_code write_header write_body
status_code-respond [] = refl
status_code-respond (header status ∷ cs) = elim (Bool-cases (status == 0)) [
  | inl e ↦ rw (eq_of_== status 0 e) (status_code-respond cs)
  | inr e ↦ rw (e, respond-set cs (record { status = status }) e, e) refl
]
status_code-respond (body ∷ cs) = rw (respond-set cs (record { status = status_ok }) refl) refl
