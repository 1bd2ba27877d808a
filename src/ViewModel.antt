-- ===== src/ViewModel.antt =====
-- src/viewmodel: what the screens show and edit.
pub mod TextEditor
