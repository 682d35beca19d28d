-- ===== src/Media/Host.antt =====
-- src/boutique/media.py: how the public host is read.
use Prim.Native.Char.{code}
use Prim.Native.String.{◌++◌, ◌∷◌}
use text.Mathlib.TextLemmas.{cons-append, append_assoc}
use boutique_backend.Prelude.{
  ◌≡◌, refl, ap, ◌∙◌, String, none, ◌==◌, ◌&&◌, ℕ_eq, string_eq, arith, if◌then◌else◌,
}
use boutique_backend.Prelude.Strings.{rstrip_char, after_prefix, removeprefix}
use boutique_backend.Prelude.Prefixes.{after_prefix-append, removeprefix-append}
use boutique_backend.Media.{public_host}

rstrip_char-slash : (h : String) → rstrip_char 47 (h ++ "/") ≡ rstrip_char 47 h
rstrip_char-slash String.[] = refl
rstrip_char-slash (String.◌∷◌ c h) =
    ap (rstrip_char 47) (cons-append c h "/")
    ∙ ap (λ (r : String). if code c == 47 && r == "" then "" else c ∷ r) (rstrip_char-slash h)

removeprefix_of_none : (p s : String) → after_prefix p s ≡ none → removeprefix p s ≡ s
removeprefix_of_none p s h = ground (arith, h)

bare_host :
    (s : String)
    → after_prefix "https://" s ≡ none
    → after_prefix "http://" s ≡ none
    → public_host s ≡ rstrip_char 47 s
bare_host s no_https no_http =
    ap (λ (r : String). rstrip_char 47 (removeprefix "http://" r))
      (removeprefix_of_none "https://" s no_https)
    ∙ ap (rstrip_char 47) (removeprefix_of_none "http://" s no_http)

https_host :
    (s : String)
    → after_prefix "http://" s ≡ none
    → public_host ("https://" ++ s) ≡ rstrip_char 47 s
https_host s no_http =
    ap (λ (r : String). rstrip_char 47 (removeprefix "http://" r))
      (removeprefix-append "https://" s)
    ∙ ap (rstrip_char 47) (removeprefix_of_none "http://" s no_http)

no_https-http : (s : String) → after_prefix "https://" ("http://" ++ s) ≡ none
no_https-http s =
    ap (after_prefix "https://") (append_assoc "http" "://" s)
    ∙ (after_prefix-append "http" "s://" ("://" ++ s)
        ∙ ap (after_prefix "s://") (cons-append ":" "//" s))

http_host : (s : String) → public_host ("http://" ++ s) ≡ rstrip_char 47 s
http_host s =
    ap (λ (r : String). rstrip_char 47 (removeprefix "http://" r))
      (removeprefix_of_none "https://" ("http://" ++ s) (no_https-http s))
    ∙ ap (rstrip_char 47) (removeprefix-append "http://" s)

-- A host that ends in no slash is read alike from its bare spelling, behind `http://` and behind
-- `https://`, with a slash at its end or without, as long as it starts with no scheme itself.
pub public_host_lem :
    (h : String)
    → rstrip_char 47 h ≡ h
    → after_prefix "https://" h ≡ none
    → after_prefix "http://" h ≡ none
    → after_prefix "http://" (h ++ "/") ≡ none
    → (public_host h ≡ h)
      × ((public_host ("http://" ++ h) ≡ h)
          × ((public_host ("http://" ++ (h ++ "/")) ≡ h)
              × ((public_host ("https://" ++ h) ≡ h)
                  × (public_host ("https://" ++ (h ++ "/")) ≡ h))))
public_host_lem h bare no_https no_http no_slash = (
  bare_host h no_https no_http ∙ bare,
  (
    http_host h ∙ bare,
    (
      http_host (h ++ "/") ∙ (rstrip_char-slash h ∙ bare),
      (https_host h no_http ∙ bare, https_host (h ++ "/") no_slash ∙ (rstrip_char-slash h ∙ bare)),
    ),
  ),
)
