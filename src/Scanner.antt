-- ===== src/Scanner.antt =====
-- api/scanner.py with api/ansible_runner.py: one scan job from the claimed row to its verdict, the
-- deletion of an infected source and the clean-up of the staging directory. What Ansible, the file
-- system and the files' bytes answer are fields of `Env`.
mod Outside
mod Ansible
mod Staging
mod Stages
mod Pipeline
unfoldable pub use Outside.*
unfoldable pub use Ansible.*
unfoldable pub use Staging.*
unfoldable pub use Stages.*
unfoldable pub use Pipeline.*
