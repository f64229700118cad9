-- ===== src/Lookup.antt =====
-- src/smf_lookup_sql.c: where the pool of SQL connections goes to, how it is started and how it is
-- asked. Ldap: src/smf_lookup_ldap.c. Db4: src/smf_lookup_db4.c.
pub mod Dsn
pub mod Pool
pub mod Failover
pub mod Query
pub mod Ldap
pub mod Db4
