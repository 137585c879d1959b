-- ===== src/Provider/Address.antt =====
-- The key in an RPC address, as `call_rpc_request`, `get_status` and `_check_available_rpcs` of
-- src/py_near/providers.py take it out.
use text.Mathlib.TextLemmas.{append_assoc, cons-append, nil-append}
use Prim.Native.Char.{Char}
use mathlib.Core.Path.{subst}
use py_near.Base.{
  String, ◌<>◌, true, List, [], ◌∷◌, ok, err, ◌>>=◌, ◌≡◌, refl, Option, none, some, ap, sym,
  if◌then◌else◌, ◌∙◌,
}
use py_near.Text.{has, split, remove_all}
use py_near.Text.Laws.Once.{remove_all-once}
use py_near.Text.Laws.{Lacks, Lacks-append, split-first, split-second, has-append}
use py_near.Errors.Exception.{Raises, index_error}

abbrev first_part : List String → Raises String
first_part [] = err index_error
first_part (w ∷ _) = ok w

abbrev second_part : List String → Raises String
second_part [] = err index_error
second_part (_ ∷ ws) = first_part ws

-- `rpc_addr.split("//")[1].split("@")[0]`
unfoldable pub auth_key : String → Raises String
auth_key addr = do part ← second_part (split "//" addr); first_part (split "@" part)

-- The bearer key, if the address holds one, and the address without it.
unfoldable pub authorise : String → Raises (Option String × String)
authorise addr =
    if has "@" addr
    then (do key ← auth_key addr; ok (some key, remove_all (key <> "@") addr))
    else ok (none, addr)

-- The separators' characters.
abbrev slash : Char
slash = "/"

abbrev at_sign : Char
at_sign = "@"

-- An address with a key in it: `https://KEY@host/path`.
abbrev pub with_key : String → String → String → String
with_key scheme key host = scheme <> ("//" <> (key <> ("@" <> host)))

mark : (s : String) → "@" <> s ≡ String.◌∷◌ at_sign s
mark s = cons-append at_sign String.[] s ∙ ap (String.◌∷◌ at_sign) (nil-append s)

auth_key-with_key :
    (scheme key host : String)
    → Lacks slash scheme
    → Lacks slash key
    → Lacks at_sign key
    → auth_key (with_key scheme key host) ≡ ok key
unfolding auth_key
auth_key-with_key scheme key host ss ks ka =
    let (r, ws, e) = split-second slash at_sign "/" scheme key host ss ks refl in
    let e' : split "//" (with_key scheme key host) ≡ scheme ∷ (key <> ("@" <> r)) ∷ ws =
      subst (λ t. split "//" (scheme <> ("//" <> (key <> t))) ≡ scheme ∷ (key <> ("@" <> r)) ∷ ws)
        (sym (mark host)) (e ∙ ap (λ t. scheme ∷ (key <> t) ∷ ws) (sym (mark r))) in
    rw e' (rw (split-first at_sign String.[] key r ka))

remove_all-with_key :
    (scheme key host : String)
    → Lacks at_sign scheme
    → Lacks at_sign key
    → Lacks at_sign host
    → remove_all (key <> "@") (with_key scheme key host) ≡ scheme <> ("//" <> host)
remove_all-with_key scheme key host sa ka ha =
    let whole : (scheme <> "//") <> ((key <> "@") <> host) ≡ with_key scheme key host =
      simp append_assoc in
    subst (λ t. remove_all (key <> "@") t ≡ scheme <> ("//" <> host)) whole
      (remove_all-once at_sign key (scheme <> "//") host ka
          (Lacks-append at_sign scheme "//" sa (refl, (refl, tt))) ha
        ∙ append_assoc scheme "//" host)

-- The key and the address without it are taken apart again, if neither the scheme nor the key holds
-- a slash or an at sign and the host holds no at sign.
pub authorise-with_key :
    (scheme key host : String)
    → Lacks slash scheme
    → Lacks at_sign scheme
    → Lacks slash key
    → Lacks at_sign key
    → Lacks at_sign host
    → authorise (with_key scheme key host) ≡ ok (some key, scheme <> ("//" <> host))
unfolding authorise
authorise-with_key scheme key host ss sa ks ka ha =
    let whole : (scheme <> ("//" <> key)) <> ("@" <> host) ≡ with_key scheme key host =
      simp append_assoc in
    let present : has "@" (with_key scheme key host) ≡ true =
      subst (λ t. has "@" t ≡ true) whole (has-append "@" (scheme <> ("//" <> key)) host) in
    rw present (
      rw (auth_key-with_key scheme key host ss ks ka)
        (rw (remove_all-with_key scheme key host sa ka ha)))
