-- ===== src/Trace.antt =====
-- trace.go, and `traceLocked` of context.go: the bounded list of life-cycle events.
pub mod Bound
pub mod Numbers
use stc_go.Base.{ℕ, List, [], ◌∷◌, ◌++◌, length, leb, if◌then◌else◌}
use stc_go.Key.{Text}

pub data TraceKind : Type 0 where
  provide unprovide loading apply_start applied active unloading unwound pending failed gone :
      TraceKind

pub record TraceEvent : Type 0 where
  pub seq : ℕ
  pub kind : TraceKind
  pub fiber : ℕ
  pub key : Text

abbrev pub trace_cap : ℕ
trace_cap = 8192

-- `copy(sh.trace, sh.trace[1:])` with the slice cut by one: the oldest event goes.
drop_oldest {ℓ} : {A : Type ℓ} → List A → List A
drop_oldest [] = []
drop_oldest (x ∷ xs) = xs

unfoldable pub push_event : List TraceEvent → TraceEvent → List TraceEvent
unfolding drop_oldest
push_event t e = (if leb trace_cap (length t) then drop_oldest t else t) ++ e ∷ []

-- TraceKind.String: the names as in the source's switch, which the constructors spell too, but for
-- "apply-start".
unfoldable pub kind_text : TraceKind → Text
kind_text provide = 112 ∷ 114 ∷ 111 ∷ 118 ∷ 105 ∷ 100 ∷ 101 ∷ []
kind_text unprovide = 117 ∷ 110 ∷ 112 ∷ 114 ∷ 111 ∷ 118 ∷ 105 ∷ 100 ∷ 101 ∷ []
kind_text loading = 108 ∷ 111 ∷ 97 ∷ 100 ∷ 105 ∷ 110 ∷ 103 ∷ []
kind_text apply_start = 97 ∷ 112 ∷ 112 ∷ 108 ∷ 121 ∷ 45 ∷ 115 ∷ 116 ∷ 97 ∷ 114 ∷ 116 ∷ []
kind_text applied = 97 ∷ 112 ∷ 112 ∷ 108 ∷ 105 ∷ 101 ∷ 100 ∷ []
kind_text active = 97 ∷ 99 ∷ 116 ∷ 105 ∷ 118 ∷ 101 ∷ []
kind_text unloading = 117 ∷ 110 ∷ 108 ∷ 111 ∷ 97 ∷ 100 ∷ 105 ∷ 110 ∷ 103 ∷ []
kind_text unwound = 117 ∷ 110 ∷ 119 ∷ 111 ∷ 117 ∷ 110 ∷ 100 ∷ []
kind_text pending = 112 ∷ 101 ∷ 110 ∷ 100 ∷ 105 ∷ 110 ∷ 103 ∷ []
kind_text failed = 102 ∷ 97 ∷ 105 ∷ 108 ∷ 101 ∷ 100 ∷ []
kind_text gone = 103 ∷ 111 ∷ 110 ∷ 101 ∷ []
