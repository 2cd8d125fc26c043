-- ===== src/Service/Parameters.antt =====
-- tg_service.c: the array of the parameters of a service.
use tgserver.Base.{
  ℕ, zero, suc, ◌+◌, ◌%◌, ◌<◌, ◌≡◌, ◌≢◌, refl, ◌∙◌, true, false, not, ◌&&◌, List, [], ◌∷◌, ◌++◌,
  map, Option, none, some, ◌==◌, length, replicate, length-append, ok, Bytes, with_nul, memcpy,
  store, arith,
}
use tgserver.Service.{Service, set_service_create_parameters, grow_parameters}

-- The array with these parameters, and `free` places of NULL behind them.
abbrev pub array : List Bytes → ℕ → List (Option Bytes)
array ps free = map (λ b. some (with_nul b)) ps ++ replicate free none

-- The service has these parameters, in this order: it has none and no array, or there are less than
-- five free places in an array whose length is a multiple of five.
pub data HasParameters (p : Service) : List Bytes → Type 0 where
  no_array : p.parameters ≡ none → HasParameters p []
  in_array :
      (b : Bytes) (ps : List Bytes) (free : ℕ)
      → p.parameters ≡ some (array (b ∷ ps) free)
      → p.par_counts ≡ length (b ∷ ps)
      → free < 5
      → (length (b ∷ ps) + free) % 5 ≡ 0
      → HasParameters p (b ∷ ps)

memcpy-array :
    (ps : List Bytes) (xs : List (Option Bytes))
    → memcpy (length ps) (map (λ b. some (with_nul b)) ps ++ xs)
      ≡ ok (map (λ b. some (with_nul b)) ps)
unfolding memcpy
memcpy-array [] xs = refl
memcpy-array (b ∷ ps) xs = rw (memcpy-array ps xs)

store-array :
    (new : Bytes) (ps : List Bytes) (free : ℕ)
    → store (array ps (suc free)) (length ps) (some (with_nul new))
      ≡ ok (array (ps ++ new ∷ []) free)
unfolding store
store-array new [] free = refl
store-array new (b ∷ ps) free = rw (store-array new ps free)

is_full : (n : ℕ) → (suc n + 0) % 5 ≡ 0 → (not (suc n == 0) && suc n % 5 == 0) ≡ true
is_full n h = ground arith

has_room :
    (n free : ℕ)
    → 0 < free
    → free < 5
    → (suc n + free) % 5 ≡ 0
    → (not (suc n == 0) && suc n % 5 == 0) ≡ false
has_room n free z f h = let rest : suc n % 5 ≢ 0 = omega arith in ground arith

-- With one place free, or with none, the array that the parameter goes to has room for it.
grown-array :
    (ps : List Bytes) (b : Bytes) (free : ℕ) (p : Service)
    → p.parameters ≡ some (array (b ∷ ps) free)
    → p.par_counts ≡ length (b ∷ ps)
    → free < 5
    → (length (b ∷ ps) + free) % 5 ≡ 0
    → (more : ℕ) × (grow_parameters p ≡ ok (array (b ∷ ps) (suc more), length (b ∷ ps)))
      × (more < 5)
      × ((suc (length (b ∷ ps)) + more) % 5 ≡ 0)
unfolding grow_parameters
grown-array ps b zero p e k f m = (
  4,
  (λ i. grow_parameters (record p { parameters = e i; par_counts = k i }))
      ∙ rw (is_full (length ps) (omega arith)) (rw (memcpy-array (b ∷ ps) [])),
  omega arith,
  omega arith,
)
grown-array ps b (suc free) p e k f m = (
  free,
  (λ i. grow_parameters (record p { parameters = e i; par_counts = k i }))
      ∙ rw (has_room (length ps) (suc free) (omega arith) f m),
  omega arith,
  omega arith,
)

-- setServiceCreateParameters never writes outside the array, keeps the parameters that are there,
-- and puts the new one behind them.
pub set_service_create_parameters-HasParameters :
    (new : Bytes) (ps : List Bytes) (p : Service)
    → HasParameters p ps
    → (q : Service) × (set_service_create_parameters new p ≡ ok q)
      × HasParameters q (ps ++ new ∷ [])
unfolding set_service_create_parameters
set_service_create_parameters-HasParameters new [] p (no_array e) = (
  record p { parameters = some (array (new ∷ []) 4); par_counts = 1 },
  (λ i. set_service_create_parameters new (record p { parameters = e i }))
      ∙ unfold grow_parameters store in refl,
  in_array new [] 4 refl refl (omega arith) refl,
)
set_service_create_parameters-HasParameters new (b ∷ ps) p (in_array _ _ free e k f m) =
    let (more, grown, f', m') = grown-array ps b free p e k f m in
    (
      record p {
        parameters = some (array (b ∷ (ps ++ new ∷ [])) more);
        par_counts = suc (length ps) + 1;
      },
      rw grown (rw (store-array new (b ∷ ps) more)),
      in_array b (ps ++ new ∷ []) more refl (omega (arith, length-append ps (new ∷ []))) f'
          (omega (arith, length-append ps (new ∷ []))),
    )
