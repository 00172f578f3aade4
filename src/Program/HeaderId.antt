-- ===== src/Program/HeaderId.antt =====
-- `GetHeaderId` of codegen/codegen.hpp, the first byte of each header.
use hivelang.Prelude.{ℕ}

-- The names that are compared with, and every other text.
pub data ProviderName : Type 0 where
  x64 gpu dll loc other_name : ProviderName

pub data HeaderIdAction : Type 0 where
  action_sleep action_push_object action_query_object action_push_pipe action_query_pipe
        action_new_object action_cast_provider action_call_worker header_dll_import
        header_x64_workers header_gpu_workers header_strings_table header_entry_id :
      HeaderIdAction

-- The byte that is written: -1 is 255.
unfoldable pub get_header_id : HeaderIdAction → ProviderName → ℕ
get_header_id action_sleep x64 = 50
get_header_id action_new_object x64 = 2
get_header_id action_new_object gpu = 22
get_header_id action_new_object loc = 42
get_header_id action_push_object x64 = 0
get_header_id action_push_object gpu = 20
get_header_id action_query_object x64 = 1
get_header_id action_query_object gpu = 21
get_header_id action_push_pipe x64 = 8
get_header_id action_push_pipe _ = 28
get_header_id action_query_pipe x64 = 9
get_header_id action_query_pipe _ = 29
get_header_id action_call_worker x64 = 3
get_header_id action_call_worker gpu = 23
get_header_id action_call_worker dll = 33
get_header_id action_cast_provider _ = 10
get_header_id header_dll_import _ = 4
get_header_id header_x64_workers _ = 16
get_header_id header_gpu_workers _ = 18
get_header_id header_strings_table _ = 17
get_header_id header_entry_id _ = 80
get_header_id _ _ = 255
