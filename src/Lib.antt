-- ===== src/Lib.antt =====
-- spmfilter, a mail filter: its SMTP server takes messages from clients, spools them, runs a queue
-- of modules on each one and delivers it to the next hop.
--
-- Parts, and the files that model them (paths of the source are from the repository's root):
-- - Main: src/main.c and smf_modules_engine_load, from the command line to the engine; Connected,
--   Kept and Ready have what holds when the engine is reached.
-- - Base: native numbers, lists, C strings and C integers that the parts share.
-- - Core: src/smf_core.c, the text helpers. Strip has smf_core_strstrip and strlwc, Split has
--   smf_core_strsplit, Expand has smf_core_expand_string (Meaning: what it gives), and Copy the
--   loops of smf_core_copy_to_fd, and Names the texts of a digest and of the time.
-- - Dict: src/smf_dict.c, the hash table, one definition per function; Slots, Writes and Probe have
--   the lemmas on the array, Valid the invariant, Laws and Keys what the operations promise.
-- - Internal: src/smf_internal.c, addresses (Address), line breaks (Linebreak) and the lines of a
--   socket (Readline; Chunks has its theorems), the loops around read and write (Transfer) and
--   session ids (Sid). Users: the lookups for the addresses of an envelope
--   (smf_internal_fetch_user_data and what it calls).
-- - Envelope, Session, Settings: the records of src/smf_envelope.c, src/smf_session.c and
--   src/smf_settings.c with their operations. Settings/Access has the setters, Get what returns an
--   entry, Facility the one for syslog, Codes the reply texts and the groups of a user's own keys.
--   The parser of the configuration file is in Strtol (_get_integer), Line (_parse_line), Values
--   (_set_config_value), Parse (the loop of smf_settings_parse_config) and Check (what comes behind
--   the loop); Ends, Backend, Checked, Sane, Kept and Printed have its theorems.
-- - System: what the code calls and does not implement, as a record of functions on a world `W`:
--   loaded modules, the file system, libcmime's messages, LDAP and SQL lookups, libesmtp's
--   delivery, and what C leaves open: a NULL message, and a text that is read behind its buffer.
-- - Message: smf_message_write_skip_header of src/smf_message.c; Objects has what that file does
--   beside its calls of libcmime. EmailAddress: the same of src/smf_email_address.c.
-- - Trace: src/smf_trace.c, the log lines; Buffer says which of them fit.
-- - Nexthop: src/smf_nexthop.c. Modules: src/smf_modules.c; Headers and Flush have
--   smf_modules_flush_dirty, Load finds and opens a module, Invoke has smf_module_invoke (Path:
--   what stays of the session, Halting: how the loop stops), Process has smf_modules_process;
--   Codes, Order and Unchanged have the theorems.
-- - Smtpd: src/smf_smtpd.c. Reply has the replies, Configured those that the configuration defines,
--   Queue the handlers of the queue (Replies and Silence have its theorems), Data the reception of
--   a message (smf_smtpd_process_data; Cleanup says what it leaves in the queue directory), Dialog
--   the loop over the requests of a client (smf_smtpd_handle_client), Start the function load. Host
--   is what the server asks its host.
-- - Server: src/smf_server.c, the process pool: the counters that the parent shares with its
--   children and the loops of smf_server_loop. Tables and Refill have the lemmas on the tables and
--   on the loop that forks, Pool the pool with its processes as a step relation, Pool/Consistent
--   what the counters say of the processes, Pool/Reach that they always do, and Pool/Parent that
--   the loops of the parent are runs of that relation. Loop has smf_server_loop and
--   smf_server_accept_handler as a whole, and Pool/Serve what the loop does with children that act
--   beside it. Start has smf_server_init with its two forks and the change of the user
--   (Privileges), Listen has smf_server_listen.
-- - Spool: smf_core_gen_queue_file of src/smf_core.c. Pipe: src/smf_pipe.c, the engine that filters
--   one message; its handlers and those of Smtpd keep the contract of Modules/Contract.
-- - Smtp: smf_smtp_deliver of src/smf_smtp.c, for what libesmtp does; Callbacks has what it calls
--   back, and Reported the queue with this delivery.
-- - Lookup: src/smf_lookup_sql.c, the name of the data source (Dsn), the pool (Pool), the order in
--   which hosts are tried (Failover) and smf_lookup_sql_query (Query), for what libzdb does.
--   Lookup/Ldap: src/smf_lookup_ldap.c, the connection, its Query and what that returns (Entries),
--   for what OpenLDAP does. Lookup/Db4: src/smf_lookup_db4.c, for what Berkeley DB does. Users
--   takes both queries as parameters.
-- - Tests: examples, with a small file store and modules of their own.
--
-- How they interact: Main.main reads the configuration, opens the connection of the backend and
-- calls the engine, which is Smtpd.Start.load or Pipe.load. The first starts the pool, whose
-- children run Dialog.handle_client. Dialog.execute calls Data.Process.process_data for a DATA
-- command, which reads lines by Data.Receive.receive, writes the spool file and calls
-- Queue.process_modules; that runs Modules.Process.modules_process with the handlers of the server,
-- which calls Users, Invoke, Flush and Nexthop. State is passed on explicitly: a session, the world
-- and the list of replies, and for the dialog the phase.
--
-- Fuel: the loop of Split has the length of its text and 2, which is enough since every token takes
-- a byte; that of Expand has the length of the format and 1, since every round passes a byte of it;
-- the probe of Dict has the number of slots; that of Message the length of the file; the dialog has
-- the number of lines and 1, since every request takes one; the loop over a configuration file the
-- length of the file and 1, since every fgets takes a byte; the loop that forks needs what is
-- missing up to max_childs. No result is read for want of fuel.
--
-- Bounds: hash values keep their 32 bits, and an int of the configuration is cut to 32 bits. Sizes
-- and counters are numbers without a bound. Allocation and writes to the client succeed. A C string
-- is the list of its bytes in front of the terminator. A run in which C says nothing of what the
-- program does, as where the configuration leaves a field that points to freed memory, has no
-- result.
--
-- Not modelled: the wrappers of libcmime (src/smf_header.c, smf_part.c, smf_list.c and most of
-- smf_message.c and smf_email_address.c), the MD5 code, which is a copy, and the SysV variant of
-- the semaphores of smf_server.c. An operation under the semaphore is one step. What system calls
-- return is an argument. The dialog and the reception of a message take the lines that
-- smf_internal_readline returns as one sequence, which is how a client sees it that waits for its
-- replies.
pub mod Base
pub mod Core
pub mod Dict
pub mod Internal
pub mod Envelope
pub mod Settings
pub mod Session
pub mod System
pub mod Users
pub mod Message
pub mod Nexthop
pub mod Modules
pub mod Smtpd
pub mod Server
pub mod Lookup
pub mod Spool
pub mod Pipe
pub mod Smtp
pub mod EmailAddress
pub mod Trace
pub mod Main
pub mod Tests
