-- ===== src/PortPolicy/Windows.antt =====
-- overlay/art_port_policy.py: the fields of the Windows target.
pub mod Runtime
pub mod Libraries
use dalvikvm_multiplatform.Common.{List, ◌++◌, Assoc}
use dalvikvm_multiplatform.PortPolicy.Fields.{Field}
use Runtime.{windows_runtime_delta}
use Libraries.{windows_library_delta}

-- _WINDOWS_MODULE_DELTA
unfoldable pub windows_module_delta : Assoc (List Field)
windows_module_delta = windows_runtime_delta ++ windows_library_delta
