-- ===== src/Uri/Tests.antt =====
-- Inputs for the theorems about URIs, and runs of the definitions.
use ext_lsparrot.Base.{◌≡◌, refl, Bytes, IsByte, All, arith, codes}
use ext_lsparrot.Uri.{escape_value, raw_url_decode, decode_from, uri_to_path, uri_from_path}
use ext_lsparrot.Uri.RoundTrip.{uri_to_path-uri_from_path, uri_from_path-injective}

abbrev spaced : Bytes
spaced = codes "/srv/My App/a#b%20.php"

spaced-IsByte : All IsByte spaced
spaced-IsByte = omega arith

uri_from_path-spaced : uri_from_path spaced ≡ codes "file:///srv/My%20App/a%23b%2520.php"
unfolding uri_from_path
uri_from_path-spaced = refl

decode-lowercase : raw_url_decode (codes "a%2fb%2") ≡ codes "a/b%2"
unfolding raw_url_decode decode_from escape_value
decode-lowercase = refl

uri_to_path-other : uri_to_path (codes "untitled:One%20") ≡ codes "untitled:One%20"
unfolding uri_to_path
uri_to_path-other = refl

uri_to_path-uri_from_path_example : uri_to_path (uri_from_path spaced) ≡ spaced
uri_to_path-uri_from_path_example = uri_to_path-uri_from_path spaced spaced-IsByte

uri_from_path-injective_example : spaced ≡ spaced
uri_from_path-injective_example =
    uri_from_path-injective spaced spaced spaced-IsByte spaced-IsByte refl
