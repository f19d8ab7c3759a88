-- ===== src/Api/Constants.antt =====
-- api/v1alpha1/constants.go: annotation keys and values.
use capa_eni_controller.Prelude.{String}

abbrev pub allocate_from_pool_annotation : String
allocate_from_pool_annotation = "eni.dcn.ssu.ac.kr/allocate-from-pool"

abbrev pub interface_key_annotation : String
interface_key_annotation = "eni.dcn.ssu.ac.kr/interface-key"

abbrev pub allocator_paused_annotation : String
allocator_paused_annotation = "eni.dcn.ssu.ac.kr/allocator-paused"

abbrev pub allocation_result_annotation : String
allocation_result_annotation = "eni.dcn.ssu.ac.kr/allocation-result"

abbrev pub allocation_reason_annotation : String
allocation_reason_annotation = "eni.dcn.ssu.ac.kr/allocation-reason"

abbrev pub capi_paused_annotation : String
capi_paused_annotation = "cluster.x-k8s.io/paused"

abbrev pub claim_finalizer : String
claim_finalizer = "eniclaim.networking.dcn.ssu.ac.kr"

abbrev pub allocation_result_allocated : String
allocation_result_allocated = "Allocated"

abbrev pub allocation_result_dynamic_fallback : String
allocation_result_dynamic_fallback = "DynamicFallback"

abbrev pub allocation_result_failed : String
allocation_result_failed = "Failed"
