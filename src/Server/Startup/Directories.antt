-- ===== src/Server/Startup/Directories.antt =====
-- tg_server.c and tg_service.c: the plugins that the files of a directory give, as a list.
use tgserver.Base.{
  ℕ, zero, suc, ◌+◌, ◌≡◌, refl, sym, ap, ◌∙◌, Bool, true, false, List, [], ◌∷◌, ◌++◌, append_assoc,
  append-nil, map, Option, none, some, length, length-append, if◌then◌else◌, Run, ok, Bytes, All,
  arith,
}
use tgserver.Context.{State}
use tgserver.Service.{Service, Services, add_service}
use tgserver.Service.Table.{holding, no_services, free_behind, named, add_service-holding}
use tgserver.Service.Loading.{Linker, Loader, check_lib, load_service}
use tgserver.Service.Loading.Loads.{
  five_functions, check_lib-five, empty_room, load_service-adds, load_service-skips, added_behind,
}
use tgserver.Util.Search.{Lacks}
use tgserver.Server.Startup.{Entry, Host, load_entries, load_services}

-- A file gives a service where it is regular, the linker opens it, and it has the five functions.
abbrev pub accepted : Linker → Bytes → Entry → ℕ → Option Service
accepted linker dir e id =
    if e.regular
    then elim (linker.dlopen (dir ++ b'/' ∷ e.name)) [
      | none ↦ none
      | some h ↦ five_functions linker h id
    ]
    else none

-- The plugins of the files, in their order, numbered from id on.
abbrev pub plugins_of : Linker → Bytes → List Entry → ℕ → List (Bytes × Service)
plugins_of linker dir [] id = []
plugins_of linker dir (e ∷ es) id = elim (accepted linker dir e id) [
  | none ↦ plugins_of linker dir es id
  | some q ↦ (e.name, q) ∷ plugins_of linker dir es (id + 1)
]

-- The free slots behind so many services: the table grows by ten slots.
abbrev pub free_after : ℕ → ℕ
free_after zero = 0
free_after (suc n) = free_behind (free_after n)

abbrev pub table_of : List (Bytes × Service) → Services
table_of [] = no_services
table_of (x ∷ ss) = holding (map named (x ∷ ss)) (free_after (length (x ∷ ss)))

abbrev pub stock : List (Bytes × Service) → ℕ → Loader
stock ss id = record { services = table_of ss; next_id = id }

add_table :
    (name : Bytes) (q : Service) (ss : List (Bytes × Service))
    → add_service empty_room (some (named (name, q))) (table_of ss)
      ≡ ok (table_of (ss ++ (name, q) ∷ []))
add_table name q [] = (add_service-holding (named (name, q)) (named (name, q)) [] 0).0
add_table name q (x ∷ ss) =
    let longer : suc (length (x ∷ ss)) ≡ length (x ∷ (ss ++ (name, q) ∷ [])) =
      omega (arith, length-append ss ((name, q) ∷ [])) in
    added_behind name q (x ∷ ss) (free_after (length (x ∷ ss)))
    ∙ ap (λ n. ok (holding (map named (x ∷ (ss ++ (name, q) ∷ []))) (free_after n))) longer

module _ (host : Host) (stack : Bytes) (before : ℕ) (c : ℕ) (dir : Bytes) where
  -- What a file does to the table.
  loads_file :
      (e : Entry) (ss : List (Bytes × Service)) (id : ℕ) (o : Option Service)
      → Lacks b'/' e.name
      → accepted host.linker (c ∷ dir) e id ≡ o
      → (if e.regular
          then load_service host.linker empty_room stack before
              (some ((c ∷ dir) ++ b'/' ∷ e.name))
              (stock ss id)
          else ok (stock ss id))
        ≡ ok (elim o [ none ↦ stock ss id | some q ↦ stock (ss ++ (e.name, q) ∷ []) (id + 1) ])
  loads_file e ss id o l a = by_kind e.regular refl
    where
      done : Option Service → Loader
      done o = elim o [ none ↦ stock ss id | some q ↦ stock (ss ++ (e.name, q) ∷ []) (id + 1) ]

      loads : Run Loader
      loads =
          load_service host.linker empty_room stack before (some ((c ∷ dir) ++ b'/' ∷ e.name))
            (stock ss id)

      by_check :
          (h : ℕ) (r : Option Service)
          → host.linker.dlopen ((c ∷ dir) ++ b'/' ∷ e.name) ≡ some h
          → check_lib host.linker h id ≡ r
          → loads ≡ ok (done r)
      by_check h none opened k =
          (load_service-skips host.linker stack before c (dir ++ b'/' ∷ e.name) (stock ss id)).1 h
            opened k
      by_check h (some q) opened k =
          load_service-adds host.linker stack before e.name h id q k l (c ∷ dir) (table_of ss) _
            opened (add_table e.name q ss)

      by_handle :
          (r : Option ℕ)
          → host.linker.dlopen ((c ∷ dir) ++ b'/' ∷ e.name) ≡ r
          → loads ≡ ok (done (elim r [ none ↦ none | some h ↦ five_functions host.linker h id ]))
      by_handle none opened =
          (load_service-skips host.linker stack before c (dir ++ b'/' ∷ e.name) (stock ss id)).0
            opened
      by_handle (some h) opened = by_check h _ opened (check_lib-five host.linker h id)

      by_kind :
          (b : Bool) → e.regular ≡ b → (if e.regular then loads else ok (stock ss id)) ≡ ok (done o)
      by_kind true k = rw k (by_handle _ refl ∙ ap (λ r. ok (done r)) (sym (rw k refl) ∙ a))
      by_kind false k =
          let skipped : none ≡ o = sym (rw k refl) ∙ a in rw k (ap (λ r. ok (done r)) skipped)

  -- What the files es do to any table.
  abbrev Loads : List Entry → Type 0
  Loads es =
      (ss : List (Bytes × Service)) (id : ℕ)
      → load_entries host empty_room stack before (c ∷ dir) es (stock ss id)
        ≡ ok (
            stock (ss ++ plugins_of host.linker (c ∷ dir) es id)
              (id + length (plugins_of host.linker (c ∷ dir) es id)))

  Loads-more :
      (es : List Entry) (name : Bytes) (ss : List (Bytes × Service)) (id : ℕ) (o : Option Service)
      → Loads es
      → load_entries host empty_room stack before
          (c ∷ dir)
          es
          (elim o [ none ↦ stock ss id | some q ↦ stock (ss ++ (name, q) ∷ []) (id + 1) ])
        ≡ ok (
            stock
              (ss ++ elim o [
                | none ↦ plugins_of host.linker (c ∷ dir) es id
                | some q ↦ (name, q) ∷ plugins_of host.linker (c ∷ dir) es (id + 1)
              ])
              (id
                + length (elim o as (λ _. List (Bytes × Service)) [
                  | none ↦ plugins_of host.linker (c ∷ dir) es id
                  | some q ↦ (name, q) ∷ plugins_of host.linker (c ∷ dir) es (id + 1)
                ])))
  Loads-more es name ss id none loads = loads ss id
  Loads-more es name ss id (some q) loads =
      let more = plugins_of host.linker (c ∷ dir) es (id + 1) in
      let same : (id + 1) + length more ≡ id + suc (length more) = omega arith in
      loads (ss ++ (name, q) ∷ []) (id + 1) ∙ λ i.
      ok (stock (append_assoc ss ((name, q) ∷ []) more i) (same i))

  load_entries-Loads : (es : List Entry) → All (λ e. Lacks b'/' e.name) es → Loads es
  unfolding load_entries
  load_entries-Loads [] h ss id =
      let same : id ≡ id + 0 = omega arith in λ i. ok (stock (sym (append-nil ss) i) (same i))
  load_entries-Loads (e ∷ es) h ss id =
      rw (loads_file e ss id _ h.0 refl) (
        Loads-more es e.name ss id (accepted host.linker (c ∷ dir) e id)
          (load_entries-Loads es h.1))

  pub load_services-stock :
      (es : List Entry) (s : State) (id : ℕ)
      → host.directory (c ∷ dir) ≡ some es
      → All (λ e. Lacks b'/' e.name) es
      → load_services host empty_room stack before (c ∷ dir) (s, stock [] id)
        ≡ ok (
          s,
          stock
              (plugins_of host.linker (c ∷ dir) es id)
              (id + length (plugins_of host.linker (c ∷ dir) es id)),
        )
  unfolding load_services
  load_services-stock es s id d h = rw (load_services, d) (rw (load_entries-Loads es h [] id) refl)
