-- ===== src/Enums.antt =====
-- The enumerations: src/pwshpy/domain/enums.py, but for those that Packing and Scheduling declare.
pub mod ByValue
pub mod OutputFormat
pub mod DeployTarget
pub mod RunnerFormat
pub mod ProcessStatus
pub mod AddressFamily
pub mod TransportProtocol
pub mod ConnectionState
pub mod RegistryHive
pub mod RegistryValueType
pub mod ServiceState
pub mod ServiceStartType
pub mod ServiceKind
pub mod EventLevel
pub mod TaskState
pub mod IntegrityLevel
pub mod AceType
pub mod AclEntryKind
pub mod FileItemType
pub mod ImageArchitecture
pub mod KnownFolder
mod Tests
