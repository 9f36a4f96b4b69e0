-- ===== src/Tests.antt =====
-- Concrete runs of the model and the theorems at concrete inputs.
mod Sample
mod AdmissionTests
mod ActionTests
mod SelectorTests
mod ObserverTests
mod AdapterTests
mod NetworkTests
mod ConnectionTests
mod ControlTests
mod ClientTests
mod FileTests
