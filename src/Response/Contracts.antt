-- ===== src/Response/Contracts.antt =====
-- tg_service.h: what the server asks of the function do_request of a plugin, and what its client
-- gets from a plugin that keeps to it.
use tgserver.Base.{
  ℕ, ◌<◌, ◌≡◌, [], ◌∷◌, ◌++◌, Option, some, Run, ok, ◌>>=◌, Bytes, length, le_bytes,
}
use tgserver.Context.{Client}
use tgserver.Response.{reply}
use tgserver.Response.Requests.{Frames, request_for, reply-Frames}

-- For the request "tg://name/args", whatever byte stands behind its NUL, the function returns the
-- number of the bytes d in four bytes, the number's own not counted, then the bytes, and perhaps
-- more. There are some of them, and their number is an int.
pub record KeepsContract (do_request : Bytes → Run (Option Bytes)) (name args d : Bytes)
    : Type 0 where
  pub more : Bytes
  pub returned :
      (x : ℕ)
      → do_request (request_for name args (x ∷ [])) ≡ ok (some (le_bytes (length d) ++ (d ++ more)))
  pub some_bytes : 0 < length d
  pub fits_int : length d < 2147483648

-- The client gets the bytes in one frame.
pub KeepsContract-Frames :
    (do_request : Bytes → Run (Option Bytes)) (name args d : Bytes) (x : ℕ) (c : Client)
    → KeepsContract do_request name args d
    → Frames c d (do_request (request_for name args (x ∷ [])) >>= reply c)
KeepsContract-Frames do_request name args d x c k =
    rw (k.returned x) (reply-Frames c d k.more k.some_bytes k.fits_int)
