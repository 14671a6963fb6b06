-- ===== src/Lib.antt =====
-- RateEngine: a model of the rating and call control of the C program, with the theorems that make
-- them correct. Paths are those of the repository.
--
-- A call is rated on an account (an account, its bill plan, its payment card and its balance).
-- Online, src/mod/CallControl receives a request for seconds, counts the calls of the number in its
-- table and asks src/mod/Rating, through the functions that rt_bind_api.c binds, how long the call
-- may last; a call that may start is stored in the table. When it is terminated, the server thread
-- adds its record to the CDR mediator, has it rated and clears its slot. Offline, the CDR mediator
-- filters and stores the records of calls, rt_loop divides a batch of them among threads, and
-- rt_exec rates each: it stores the rating, marks the record and adds the price to the balance.
--
-- Base: numbers, integers, C strings, lists and broken-down time.
-- Rating/Data, Rating/Mode: the structures of rt_data.h; Rating/World: the database and libc.
-- Rating/Calc: calc_functions.c (calc_cprice_2, calc_maxsec and their kin) and round_billsec.c.
-- Rating/TimeCond: tc_ts_cmp of time_cond.c. Rating/Pcard: pcard_manager of pcard.c.
-- Rating/Cache: rt_cache.c, but for rt_cache_preload_raccs, which is in Rating/Racc/Preload.
-- Rating/Search: rt_chk_tr_opt of rating.c and the rates of rt_data_q.c.
-- Rating/Account: rt_prerating_process, rt_rate_searching and the account modes of rating.c.
-- Rating/Racc: rt_data_q_racc of rt_data_q.c, the query of an account and its cache.
-- Rating/Maxsec: rt_maxsec of rt_maxsec.c.
-- Rating/Ledger: the statements of rt_data_q.c, free_billsec.c and cdr.c that a rating sends.
-- Rating/Exec: rt_exec and rt_double_rating of rating.c. Rating/Batch, Rating/Workers: rt_main, the
-- workers and the loops of rt_loop.
-- Database/Escape: db_sql_escape of src/db/db.c. Database/Dispatch: the other functions of db.c,
-- which pass an operation on to the engine of a database, and the retries of db_command.
-- CdrMediator: cdr.h, cdr.c and prefix_filter.c of src/mod/CDRMediator; CdrMediator/File:
-- cdr_file.c, the reader and the parser of files of call records; CdrMediator/Remote: cdr_storage.c
-- and cdr_storage_sched.c, the reader of the database of a switch and its schedule.
-- CallControl/Table, CallControl/Events: cc_server.c and cc.c; CallControl/Sweep: cc_server_thread.
-- MyCc: src/mod/my_cc, the text protocol in which a switch asks call control. JsonrpcCc:
-- src/mod/jsonrpc_cc, the same over JSON-RPC, from the request that src/misc/exten/json_rpc.c read.
-- RatingDuckDb: the pricing query of rt_duckdb.c, and its split of free seconds.
-- Rating/Tests, RatingDuckDb/Tests, Online, Offline and the files Tests of MyCc, JsonrpcCc,
-- CdrMediator/File, CdrMediator/Remote, Database/Dispatch, Rating/Racc and the two Preload folders
-- run the theorems at concrete calls, accounts and tables.
--
-- State is passed explicitly: World is the database with the cache, a table of calls is the list of
-- its slots. Loops are structural recursion on the array that they walk, so that no fuel is needed,
-- except for the DuckDB query, which makes at most one row for each tier of a numbered tariff; an
-- array that ends in a zeroed entry is a list, whose walk also stops at such an entry. db_command
-- has the five commands and five failed connects of the code for fuel.
--
-- An amount of money, a double in C, is a whole number of the smallest unit, and arithmetic on it
-- is exact; a limit has a denominator, limit_parts, since it is divided by the number of calls.
-- Quotients of seconds are exact, which floats are below 2 ^ 24 seconds. C integers are unbounded,
-- apart from the hashes and counters of the cache, which are 32 bits wide, the count of the calls in
-- progress, which has 16, and the fields of my_cc and of the records that are stored.
-- Allocation succeeds, and each locked section is one step. The clock does not move while one call
-- is handled.
--
-- The rating of a record sends statements: its database is the list of those sent, and the answers
-- to its queries are functions of that list. A result of none there is a process that dies on NULL;
-- over JSON-RPC it is one that reads a pointer that was not initialised.
-- The workers of a batch run one after the other.
--
-- Parameters: the engines of the database, the file system, the rows that the SQL queries answer,
-- the local time, sscanf and mktime, and in CallControl the CDR mediator and the rating of an ended
-- call. Not modelled: the NoSQL branches of the rating and the mediator, the calls of the preloads
-- from rt_loop, workers that interleave, the rest of the DuckDB engine, the profiles and threads of
-- the CDR mediator, configuration, the protocols but these two, and all other input and output.
pub mod Base
pub mod Rating
pub mod Database
pub mod CdrMediator
pub mod CallControl
pub mod MyCc
pub mod JsonrpcCc
pub mod RatingDuckDb
pub mod Online
pub mod Offline
