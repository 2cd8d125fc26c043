-- ===== src/Util/Tests.antt =====
-- tg_util.c: the theorems on concrete strings, and runs of the functions.
use Prim.Native.Char.{code}
use Prim.Native.String.{String}
use tgserver.Base.{[], ◌∷◌, none, some, ◌≡◌, refl, pos, negsuc, minus_one, ok, Bytes, strncmp_eq}
use tgserver.Util.{find_separator, last_find_separator, get_lib_name}
use tgserver.Util.Search.{FindsFirst, find_separator-FindsFirst}

abbrev codes : String → Bytes
codes String.[] = []
codes (String.◌∷◌ c s) = code c ∷ codes s

abbrev plugin_path : Bytes
plugin_path = codes "plugins/libdemo.so"

find_separator_runs : find_separator [] (some (codes "port=66=1")) (some (b'=' ∷ [])) ≡ ok (pos 4)
unfolding find_separator strncmp_eq
find_separator_runs = refl

find_separator_misses : find_separator [] (some (codes "port")) (some (b'=' ∷ [])) ≡ ok minus_one
unfolding find_separator strncmp_eq
find_separator_misses = refl

last_find_separator_misses :
    last_find_separator [] 0 (some (codes "port")) (some (b'/' ∷ [])) ≡ ok (negsuc 1)
unfolding last_find_separator strncmp_eq
last_find_separator_misses = refl

get_lib_name_runs : get_lib_name [] 0 (some (codes "a/b/lib.so")) none ≡ ok (some (codes "lib.so"))
unfolding get_lib_name last_find_separator strncmp_eq
get_lib_name_runs = refl

find_separator-FindsFirst_example :
    FindsFirst b'='
      (codes "port=66=1")
      (find_separator [] (some (codes "port=66=1")) (some (b'=' ∷ [])))
find_separator-FindsFirst_example = find_separator-FindsFirst [] (codes "port=66=1") b'='
