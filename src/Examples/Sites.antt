-- ===== src/Examples/Sites.antt =====
-- Runs of the example site.
use stc_go.Base.{ℕ, ◌≡◌, refl, true, Option, none, some, [], ◌∷◌, ◌++◌, last?}
use stc_go.Base.Assoc.{lookup, insert, delete}
use stc_go.Key.{Text, Key, Reflect, Error, inactive, assignable}
use stc_go.Key
use stc_go.Store.{Shared, new, unprovide, is_inactive, entries, same}
use stc_go.Services.{
  ok, provide, add_provide, foreign_provider, remove_provide, service, resolve, prov_key,
}
use stc_go.Services.Entries.{new_entry}
use stc_go.Unwind.{
  release, unwind, unwind_with, begin_unwind, unwind_all, run_inverses, run_inverse,
}
use stc_go.Scope.{detach, realm_for_locked}
use stc_go.Router.{new_router}
use stc_go.Site.{
  Site, banner_set, page, panic, internal_error, hello_path, greeting, set_banner, hello_apply,
  request,
}
use stc_go.Site.Banner.{set_banner-hello, set_banner-panic}

-- Texts have the type 0, routers the type 1.
abbrev typed_texts : Reflect
typed_texts = record {
  type_of = λ v. elim v [ Key.text t ↦ some 0 | Key.dyn t n ↦ some t | Key.nil ↦ none ];
  assignable_to = λ a b. true;
  asserts = λ t v. true;
}

abbrev quiet : ℕ → Option Error
quiet n = none

-- "router" and "banner"
abbrev router_key : Key
router_key = record { name = 114 ∷ 111 ∷ 117 ∷ 116 ∷ 101 ∷ 114 ∷ []; typ = some 1 }

abbrev banner_key : Key
banner_key = record { name = 98 ∷ 97 ∷ 110 ∷ 110 ∷ 101 ∷ 114 ∷ []; typ = some 0 }

-- "v1" and "v2"
abbrev v1 : Text
v1 = 118 ∷ 49 ∷ []

abbrev v2 : Text
v2 = 118 ∷ 50 ∷ []

abbrev routed : Shared
routed = (provide typed_texts new 0 router_key (Key.dyn 1 0)).1

-- The site after its start, without the plug-ins.
abbrev site : Site
site = record {
  shared = (provide typed_texts routed 0 banner_key (Key.text v1)).1;
  router = new_router;
  banner_inv = some (unprovide (prov_key routed 0 banner_key) (new_entry routed 0 (Key.text v1)));
}

abbrev renewed : Site
renewed = (set_banner typed_texts quiet banner_key site v2).1

renews : set_banner typed_texts quiet banner_key site v2 ≡ (banner_set v2, renewed)
unfolding set_banner new provide run_inverse remove_provide is_inactive entries lookup add_provide
    assignable foreign_provider insert Key.realm_id realm_for_locked same delete
renews = refl

has_router : service typed_texts 1 renewed.shared 0 router_key ≡ ok (Key.dyn 1 0)
unfolding set_banner new provide run_inverse remove_provide is_inactive entries lookup add_provide
    service resolve realm_for_locked assignable foreign_provider insert Key.realm_id same delete
    last?
has_router = refl

set_banner-hello_example :
    (request typed_texts quiet banner_key
      (hello_apply typed_texts 1 0 router_key renewed 0 banner_key).1
      hello_path
      []).0
    ≡ page (greeting ++ v2 ++ 10 ∷ [])
set_banner-hello_example =
    set_banner-hello typed_texts quiet 1 0 router_key banner_key site renewed v2 v2 [] 0
      (Key.dyn 1 0) renews refl refl has_router

-- The site while its root is being unwound.
abbrev closing_site : Site
closing_site = record site { shared = (release quiet new 0).1 }

closing_root : is_inactive closing_site.shared 0 ≡ true
unfolding release unwind new unwind_with begin_unwind detach unwind_all run_inverses is_inactive
closing_root = refl

accepted : assignable typed_texts banner_key (Key.text v2) ≡ true
unfolding assignable
accepted = refl

set_banner-panic_example :
    let (a, u) = set_banner typed_texts quiet banner_key closing_site v2 in
    (a ≡ internal_error inactive) × ((set_banner typed_texts quiet banner_key u v1).0 ≡ panic)
set_banner-panic_example =
    set_banner-panic typed_texts quiet 1 0 router_key banner_key closing_site 118 118 (50 ∷ [])
      (49 ∷ []) (prov_key routed 0 banner_key) (new_entry routed 0 (Key.text v1)) closing_root refl
      accepted
