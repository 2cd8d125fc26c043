-- ===== src/Server/Startup.antt =====
-- tg_server.c and main.c: the start of the program, from its arguments to the main loop. An
-- argument is a string. What getenv, opendir and readdir, and fopen and fgets give is a parameter,
-- with `none` where they give NULL. The printed help is left out.
pub mod Arguments
pub mod Directories
pub mod Boots
mod Tests
use tgserver.Base.{
  codes, ℕ, ◌+◌, Bool, true, false, ◌||◌, List, [], ◌∷◌, ◌++◌, Option, none, some, ltb, ◌==◌,
  if◌then◌else◌, length, ℤ, pos, negsuc, minus_one, Run, ok, fault, ◌>>=◌, Bytes, with_nul,
}
use tgserver.Context.{State, Action, init, release}
use tgserver.Service.{Slot, Services, Call, create_all_services}
use tgserver.Service.Loading.{Linker, Loader, load_service}
use tgserver.Server.{parse_parameter, read_conf_lines}
use tgserver.Server.Plugins.{init_plugin}

-- A file in a directory, and whether its type is DT_REG.
pub record Entry : Type 0 where
  pub name : Bytes
  pub regular : Bool

pub record Host : Type 0 where
  pub linker : Linker
  pub home : Option Bytes
  pub directory : Bytes → Option (List Entry)
  pub file : Bytes → Option (List Bytes)

-- The globals of tg_context.c and those of tg_service.c.
abbrev pub Setup : Type 0
Setup = State × Loader

-- What main has come to: an exit with this status, or startup with the globals.
pub data Launch : Type 0 where
  exits : ℕ → List Action → Launch
  starts : List Call → State → Services → Launch

-- The value of init_context, the calls on descriptors, and the globals.
pub record Initialized : Type 0 where
  pub flag : ℤ
  pub actions : List Action
  pub setup : Setup

-- An argument "-h" stands among them.
abbrev is_help : Bytes → Bool
is_help (d ∷ h ∷ []) = if d == b'-' then h == b'h' else false
is_help _ = false

abbrev pub asks_help : List Bytes → Bool
asks_help [] = false
asks_help (a ∷ rest) = is_help a || asks_help rest

module _ (host : Host) (room : Option (List Slot)) (stack : Bytes) (before : ℕ) where
  -- The loop of __load_services over the files of a directory.
  load_entries : Bytes → List Entry → Loader → Run Loader
  load_entries dir [] l = ok l
  load_entries dir (e ∷ es) l = do
    m ←
        if e.regular
        then load_service host.linker room stack before (some (dir ++ b'/' ∷ e.name)) l
        else ok l
    load_entries dir es m

  pub load_services : Bytes → Setup → Run Setup
  unfolding load_entries
  load_services [] s = ok s
  load_services (c ∷ dir) (s, l) = elim (host.directory (c ∷ dir)) [
    | none ↦ ok (s, l)
    | some es ↦ do m ← load_entries (c ∷ dir) es l; ok (s, m)
  ]

  read_conf_file : Bytes → Setup → Run Setup
  read_conf_file [] s = ok s
  read_conf_file (c ∷ path) (s, l) = elim (host.file (c ∷ path)) [
    | none ↦ ok (s, l)
    | some lines ↦ do
      r ← read_conf_lines stack lines (s, l.services)
      ok (r.0, record l { services = r.1 })
  ]

  -- The switch over a parameter "-x" with its value.
  parse_argument : ℕ → Bytes → Bytes → Setup → Run Setup
  unfolding load_services read_conf_file
  parse_argument letter par value (s, l) =
      if letter == b'f'
      then read_conf_file value (s, l)
      else if letter == b's'
      then load_services value (s, l)
      else if letter == b'D'
      then ok (s, l)
      else (parse_parameter (some (letter ∷ with_nul par)) (with_nul value) s >>= λ t. ok (t, l))

  -- The branch of a wrong argument.
  reject : Setup → Run Initialized
  reject (s, l) = do
    r ← release s
    ok (record { flag = minus_one; actions = r.0; setup = (r.1, l) })

  -- The loop over the arguments, which ends at the NULL behind them or at an empty one.
  unfoldable pub init_arguments : List Bytes → Setup → Run Initialized
  unfolding parse_argument reject
  init_arguments [] s = ok (record { flag = pos 0; actions = []; setup = s })
  init_arguments ([] ∷ args) s = ok (record { flag = pos 0; actions = []; setup = s })
  init_arguments ((dash ∷ letter ∷ par) ∷ (v ∷ value) ∷ args) s =
      let parsed = parse_argument letter par (v ∷ value) s >>= λ t. init_arguments args t in
      if dash == b'-' then parsed else reject s
  init_arguments (_ ∷ _) s = reject s

  -- The directory with a file in it, in a buffer of 255 bytes with the NUL.
  in_buffer : Bytes → Run Bytes
  in_buffer path = if ltb (length path) 255 then ok path else fault

  -- init_context: the directory of the program, its plugins, and the default file where there is no
  -- argument.
  unfoldable pub init_context : List Bytes → Setup → Run Initialized
  unfolding in_buffer load_services read_conf_file
  init_context args (s0, l0) = do
    s1 ← init s0
    dir ← elim host.home [ none ↦ ok (codes "../") | some h ↦ in_buffer h ]
    plugins ← in_buffer (dir ++ codes "plugins/")
    s2 ← load_services plugins (s1, l0)
    s3 ← elim args [
      | [] ↦ do conf ← in_buffer (dir ++ codes "conf/server.conf"); read_conf_file conf s2
      | a ∷ more ↦ ok s2
    ]
    init_arguments args s3

  -- main, on the arguments behind the name of the program. `created` is what the plugins' create
  -- functions return, in the thread that init_plugin starts.
  unfoldable pub main :
      (ℕ → Option (List (Option Bytes)) → Option ℕ) → List Bytes → Setup → Run Launch
  main created args s =
      let launched = (do
        r ← init_context args s
        elim r.flag [
          | negsuc n ↦ do again ← release r.setup.0; ok (exits 1 (r.actions ++ again.0))
          | pos n ↦ do
            services ← init_plugin stack args r.setup.1.services
            c ← create_all_services created services
            ok (starts c.0 r.setup.0 c.1)
        ]) in
      if asks_help args then ok (exits 0 []) else launched
