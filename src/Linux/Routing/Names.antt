-- ===== src/Linux/Routing/Names.antt =====
-- proxy_routing.rs: two routes with different indices have different sockets.
use Prim.Native.String.append.{cons}
use rattler_sandbox.Prelude.{
  String, ◌<>◌, ℕ, true, [], ◌∷◌, ◌++◌, ◌≡◌, refl, sym, ap, ◌∙◌, number_text, number_text_injective,
  number_text_digits, digits_cancel, append_cancel_left, arith, has_only_digits,
}
use mathlib.Core.List.{Memᴰ}
use mathlib.Core.List as L
use rattler_sandbox.Paths.Std.{PathBuf, push, components, normal}
use rattler_sandbox.Paths.Named.{
  has_no_slash, has_no_slash-append, components-has_no_slash, push-normal,
}
use rattler_sandbox.Linux.Routing.Plan.{socket_addr_eq}
use rattler_sandbox.Linux.Routing.Host.{socket_path}

name_of : PathBuf → String
name_of (normal name ∷ []) = name
name_of path = ""

abbrev socket_name : ℕ → String
socket_name index = "proxy-route-" <> (number_text index <> ".sock")

digits-has_no_slash : (d : String) → has_only_digits d ≡ true → has_no_slash d ≡ true
unfolding has_only_digits has_no_slash
digits-has_no_slash String.[] h = refl
digits-has_no_slash (String.◌∷◌ c d) h = ground (arith, digits-has_no_slash d (ground arith))

socket_name-components :
    (index : ℕ) → components (socket_name index) ≡ normal (socket_name index) ∷ []
unfolding has_no_slash
socket_name-components index =
    ap components as_cons
    ∙ components-has_no_slash "p" _ (ap has_no_slash (sym as_cons) ∙ plain) refl
    ∙ ap (λ (s : String). normal s ∷ []) (sym as_cons)
  where
    as_cons : socket_name index ≡ String.◌∷◌ "p" ("roxy-route-" <> (number_text index <> ".sock"))
    as_cons = cons "p" "roxy-route-" (number_text index <> ".sock")

    plain : has_no_slash (socket_name index) ≡ true
    plain = has_no_slash-append "proxy-route-" (number_text index <> ".sock") refl (
        has_no_slash-append (number_text index) ".sock"
          (digits-has_no_slash (number_text index) (number_text_digits index)) refl)

pub socket_path-injective :
    (dir : PathBuf) (i j : ℕ) → socket_path dir i ≡ socket_path dir j → i ≡ j
unfolding socket_path name_of
socket_path-injective dir i j e =
    number_text_injective i j
      (digits_cancel "." (number_text i) (number_text j) "sock" "sock" refl (number_text_digits i)
        (number_text_digits j)
        (append_cancel_left "proxy-route-" _ _ (
          ap name_of (
            L.append_cancel_left dir (normal (socket_name i) ∷ []) (normal (socket_name j) ∷ [])
              (sym (below i) ∙ e ∙ below j))))).0
  where
    below : (n : ℕ) → push dir (components (socket_name n)) ≡ dir ++ (normal (socket_name n) ∷ [])
    below n = ap (push dir) (socket_name-components n) ∙ push-normal dir (socket_name n)
