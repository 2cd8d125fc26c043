-- ===== src/Service/Data.antt =====
-- tg_service.h: a service, and the global table of the services.
use tgserver.Base.{ℕ, List, Option, none, Bytes}

-- struct TGService. A name is the memory of its buffer, and so is a parameter in its array; a
-- function of the plugin is its address. What create returned is a pointer that only the plugin
-- reads.
pub record Service : Type 0 where
  pub s_id : ℕ
  pub service_name : Option Bytes
  pub parameters : Option (List (Option Bytes))
  pub par_counts : ℕ
  pub do_create : ℕ
  pub do_init : ℕ
  pub do_request : ℕ
  pub do_release : ℕ
  pub do_destroy : ℕ
  pub global_data : Option ℕ

-- The structure as memset leaves it.
abbrev pub new_service : Service
new_service = record {
  s_id = 0;
  service_name = none;
  parameters = none;
  par_counts = 0;
  do_create = 0;
  do_init = 0;
  do_request = 0;
  do_release = 0;
  do_destroy = 0;
  global_data = none;
}

-- What stands in a slot of g_services.
pub data Slot : Type 0 where
  null wild : Slot
  service : Service → Slot

-- g_services and g_services_counts.
pub record Services : Type 0 where
  pub table : Option (List Slot)
  pub counts : ℕ

abbrev pub default_service_size : ℕ
default_service_size = 10

abbrev pub default_para_counts : ℕ
default_para_counts = 5
