-- ===== src/Master.antt =====
-- master/master.cc and master/conhash.cc: the master node, which places users on a ring of backend
-- ids and names the primary and the secondary of each id.
-- `alive` stands for `check_server_state`: whether a connection to the address succeeds.
pub mod Hash
pub mod Ring
pub mod Handler
pub mod Members
