-- ===== src/Service/Loading/Unloads.antt =====
-- tg_service.c: what unLoadService frees, and when it leaves an array.
use native.Mathlib.Nat.{zero-add, suc-add}
use tgserver.Base.{
  ℕ, zero, suc, ◌+◌, ◌%◌, ◌<◌, ◌≡◌, refl, ap, ◌∙◌, Bool, true, false, not, inl, inr, ◌&&◌, List, [],
  ◌∷◌, ◌++◌, map, Option, none, some, ◌==◌, if◌then◌else◌, length, replicate, ok, fault, ◌>>=◌,
  Bytes, with_nul, memcpy, All, Bool-cases, arith,
}
use tgserver.Service.{Service, Slot, null, service}
use tgserver.Service.Table.{holding}
use tgserver.Service.Parameters.{HasParameters, no_array, in_array, array}
use tgserver.Service.Loading.{free_parameters, free_service, free_each, un_load_service, unloaded}

-- A service with its parameters.
abbrev pub Loaded : Type 0
Loaded = Service × List Bytes

-- A NULL stands behind the parameters in their array, or there is no array.
abbrev pub has_end : List Bytes → Bool
has_end [] = true
has_end (b ∷ ps) = not (suc (length ps) % 5 == 0)

abbrev pub all_end : List Loaded → Bool
all_end [] = true
all_end (x ∷ xs) = has_end x.1 && all_end xs

-- The blocks of one service: its name, and its parameters in their order.
abbrev pub blocks : Loaded → List Bytes
blocks (p, ps) = elim p.service_name [ none ↦ map with_nul ps | some name ↦ name ∷ map with_nul ps ]

abbrev pub all_blocks : List Loaded → List Bytes
all_blocks [] = []
all_blocks (x ∷ xs) = blocks x ++ all_blocks xs

abbrev pub services_of : List Loaded → List Service
services_of = map (λ x. x.0)

free_parameters-end :
    (ps : List Bytes) (free : ℕ) → free_parameters (array ps (suc free)) ≡ ok (map with_nul ps)
unfolding free_parameters
free_parameters-end [] free = refl
free_parameters-end (b ∷ ps) free = rw (free_parameters-end ps free)

free_parameters-full : (ps : List Bytes) → free_parameters (array ps 0) ≡ fault
unfolding free_parameters
free_parameters-full [] = refl
free_parameters-full (b ∷ ps) = rw (free_parameters-full ps)

-- A service with an array of parameters.
free_service-array :
    (p : Service) (xs : List (Option Bytes))
    → p.parameters ≡ some xs
    → free_service p ≡ (
        free_parameters xs >>= λ freed.
        ok (elim p.service_name [ none ↦ freed | some name ↦ name ∷ freed ]))
unfolding free_service
free_service-array p xs e =
    ap
      (λ o. (elim o [ none ↦ ok [] | some ys ↦ free_parameters ys ]) >>= λ freed.
        ok (elim p.service_name [ none ↦ freed | some name ↦ name ∷ freed ]))
      e

free_service-blocks :
    (p : Service) (ps : List Bytes)
    → HasParameters p ps
    → free_service p ≡ (if has_end ps then ok (blocks (p, ps)) else fault)
unfolding free_service
free_service-blocks p [] (no_array e) = rw e refl
free_service-blocks p (b ∷ ps) (in_array _ _ zero e k f m) =
    rw (full (length ps) m)
      (free_service-array p (array (b ∷ ps) 0) e ∙ rw (free_parameters-full (b ∷ ps)) refl)
  where
    full : (n : ℕ) → (suc n + 0) % 5 ≡ 0 → (not (suc n % 5 == 0)) ≡ false
    full n h = ground arith
free_service-blocks p (b ∷ ps) (in_array _ _ (suc free) e k f m) = rw (short (length ps) free f m) (
    free_service-array p (array (b ∷ ps) (suc free)) e
    ∙ rw (free_parameters-end (b ∷ ps) free) refl)
  where
    short : (n free : ℕ) → suc free < 5 → (suc n + suc free) % 5 ≡ 0 → (not (suc n % 5 == 0)) ≡ true
    short n free h g = ground arith

free_each-blocks :
    (xs : List Loaded) (rest : List Slot)
    → All (λ x. HasParameters x.0 x.1) xs
    → free_each (map service (services_of xs) ++ null ∷ rest)
      ≡ (if all_end xs then ok (all_blocks xs) else fault)
unfolding free_each
free_each-blocks [] rest h = refl
free_each-blocks ((p, ps) ∷ xs) rest h = elim (Bool-cases (has_end ps)) [
  | inl e ↦
      rw (free_service-blocks p ps h.0, e, free_each-blocks xs rest h.1)
        (elim (Bool-cases (all_end xs)) [ inl f ↦ rw f refl | inr f ↦ rw f refl ])
  | inr e ↦ rw (free_service-blocks p ps h.0, e) refl
]

memcpy-holding :
    (ss : List Service) (free : ℕ)
    → memcpy (length ss + free) (map service ss ++ replicate free null)
      ≡ ok (map service ss ++ replicate free null)
unfolding memcpy
memcpy-holding [] zero = refl
memcpy-holding [] (suc free) = rw zero-add (rw (rw zero-add at (memcpy-holding [] free)) refl)
memcpy-holding (x ∷ ss) free = rw (suc-add (length ss) free) (rw (memcpy-holding ss free))

-- unLoadService on a table with a free slot frees the name and the parameters of every service, in
-- their order, and leaves the empty table; but where the parameters of a service fill their array,
-- which they do at every multiple of five, it reads behind that array.
pub un_load_service-blocks :
    (xs : List Loaded) (free : ℕ)
    → All (λ x. HasParameters x.0 x.1) xs
    → un_load_service (holding (services_of xs) (suc free))
      ≡ (if all_end xs then ok (all_blocks xs, unloaded) else fault)
unfolding un_load_service
un_load_service-blocks xs free h =
    rw (free_each-blocks xs (replicate free null) h) (elim (Bool-cases (all_end xs)) [
      | inl e ↦ rw (e, memcpy-holding (services_of xs) (suc free)) refl
      | inr e ↦ rw e refl
    ])
