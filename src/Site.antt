-- ===== src/Site.antt =====
-- examples/plugin-http/main.go: the two plug-ins, the route that provides the banner anew, and what
-- the server answers to a request.
pub mod Banner
use stc_go.Base.{ℕ, ◌+◌, Option, none, some, [], ◌∷◌, ◌++◌}
use stc_go.Key.{Text, Key, Any, Typ, Reflect, Error}
use stc_go.Key
use stc_go.Store.{Component, Inverse, Shared}
use stc_go.Services.{Result, ok, err, provide, service}
use stc_go.Unwind.{run_inverse}
use stc_go.Router.{Router, Removal, handle, serve}

-- The functions that are registered as handlers, each with what it captures.
pub data Handler : Type 0 where
  hello message : Text → Handler
  admin_banner : Handler

-- The one router, and the variable `bannerInv` of main; `none` is a nil function.
pub record Site : Type 0 where
  pub shared : Shared
  pub router : Router Handler
  pub banner_inv : Option Inverse

-- What a request gets: a page, or one of the errors. A panic ends the request's goroutine.
pub data Response : Type 0 where
  page banner_set : Text → Response
  bad_request not_found panic : Response
  internal_error : Error → Response

-- "/hello", "/wasm" and "/admin/banner"
abbrev pub hello_path : Text
hello_path = 47 ∷ 104 ∷ 101 ∷ 108 ∷ 108 ∷ 111 ∷ []

abbrev pub wasm_path : Text
wasm_path = 47 ∷ 119 ∷ 97 ∷ 115 ∷ 109 ∷ []

abbrev pub admin_path : Text
admin_path = 47 ∷ 97 ∷ 100 ∷ 109 ∷ 105 ∷ 110 ∷ 47 ∷ 98 ∷ 97 ∷ 110 ∷ 110 ∷ 101 ∷ 114 ∷ []

-- "hello from banner "
abbrev pub greeting : Text
greeting =
    104 ∷ 101 ∷ 108 ∷ 108 ∷ 111 ∷ 32 ∷ 102 ∷ 114 ∷ 111 ∷ 109 ∷ 32 ∷ 98 ∷ 97 ∷ 110 ∷ 110 ∷ 101 ∷ 114
    ∷ 32 ∷ []

-- The text of a value of type string; the type assertion lets no other value through.
abbrev pub string_of : Any → Text
string_of (Key.text t) = t
string_of _ = []

module _ (r : Reflect) (router_typ string_typ : Typ) (router_key : Key) where
  -- The rest of an Apply, once it has its text.
  with_text : Site → Text → (Text → Handler) → Result Any → Result Removal × Site
  with_text s path h (err e) = (err e, s)
  with_text s path h (ok v) =
      let (u, rt) = handle s.router path (some (h (string_of v))) in
      (ok u, record s { router = rt })

  with_router : Site → ℕ → Key → Text → (Text → Handler) → Result Any → Result Removal × Site
  unfolding with_text
  with_router s c key path h (err e) = (err e, s)
  with_router s c key path h (ok rt) = with_text s path h (service r string_typ s.shared c key)

  -- Apply of the plug-in "hello"
  unfoldable pub hello_apply : Site → ℕ → Key → Result Removal × Site
  unfolding with_router
  hello_apply s c banner_key =
      with_router s c banner_key hello_path hello (service r router_typ s.shared c router_key)

  -- Apply of the plug-in "wasm-bridge"
  unfoldable pub bridge_apply : Site → ℕ → Key → Result Removal × Site
  unfolding with_router
  bridge_apply s c msg_key =
      with_router s c msg_key wasm_path message (service r router_typ s.shared c router_key)

-- "hello" and "wasm-bridge"; `apply` names the Apply.
unfoldable pub hello_component : Key → Key → ℕ → Component
hello_component router_key banner_key apply = record {
  name = 104 ∷ 101 ∷ 108 ∷ 108 ∷ 111 ∷ [];
  inject = router_key ∷ banner_key ∷ [];
  provide = [];
  apply = some apply;
}

unfoldable pub bridge_component : Key → Key → ℕ → Component
bridge_component router_key msg_key apply = record {
  name = 119 ∷ 97 ∷ 115 ∷ 109 ∷ 45 ∷ 98 ∷ 114 ∷ 105 ∷ 100 ∷ 103 ∷ 101 ∷ [];
  inject = router_key ∷ msg_key ∷ [];
  provide = [];
  apply = some apply;
}

module _ (r : Reflect) (outcome : ℕ → Option Error) (banner_key : Key) where
  -- The second part of the route's handler: the assignment of both results of Provide.
  banner_provided : Site → Text → Result Inverse × Shared → Response × Site
  banner_provided s t (ok i, sh) = (banner_set t, record s { shared = sh; banner_inv = some i })
  banner_provided s t (err e, sh) = (internal_error e, record s { shared = sh; banner_inv = none })

  withdrawn : Site → Text → Option Error × Shared → Response × Site
  unfolding banner_provided
  withdrawn s t (some e, sh) = (internal_error e, record s { shared = sh })
  withdrawn s t (none, sh) =
      let u = record s { shared = sh } in
      banner_provided u t (provide r sh 0 banner_key (Key.text t))

  replace_banner : Site → Text → Option Inverse → Response × Site
  unfolding withdrawn
  replace_banner s t none = (panic, s)
  replace_banner s t (some i) = withdrawn s t (run_inverse outcome s.shared i)

  -- The handler of "/admin/banner", where `t` is the parameter `text`.
  unfoldable pub set_banner : Site → Text → Response × Site
  unfolding replace_banner
  set_banner s [] = (bad_request, s)
  set_banner s (c ∷ t) = replace_banner s (c ∷ t) s.banner_inv

  answer : Site → Text → Option Handler → Response × Site
  unfolding set_banner
  answer s t none = (not_found, s)
  answer s t (some (hello banner)) = (page (greeting ++ banner ++ 10 ∷ []), s)
  answer s t (some (message msg)) = (page (msg ++ 10 ∷ []), s)
  answer s t (some admin_banner) = set_banner s t

  -- A request: its path, and its parameter `text`.
  unfoldable pub request : Site → Text → Text → Response × Site
  unfolding answer
  request s path t = answer s t (serve s.router path)
