-- ===== src/Lib.antt =====
-- elevator: a verification library for the visitor record and its stores.
--
-- The program keeps a record for each visitor of a site, the VCookie, and loads and saves it through
-- a VCookieStore. A VCookie loads itself in its constructor and is written back by Store; a store
-- turns it into bytes and back by the static functions Serialize and Deserialize of VCookieStore.
-- A test harness replays hits against a store.
--
--   Base          Boolean tests, lists, byte strings and words, and Run, the outcome of code that can
--                 fault or run out of fuel
--   Cookie        class VCookie (abstraction/vcookie.h): a record with the members of the class; a
--                 method is a function from it to the new one with the method's result
--     Vars        the members relVar and relVarSort, with SetVar, ClearVar, AddLinearElement and the
--                 binary search FindRelationPos; Vars/Read has the observers GetVar,
--                 GetVarElementCount, GetFirst/NextSetVar and GetFirst/NextModifiedVar; Vars/View is
--                 the abstract view, the list of variables in the order of their relation ids
--     Purchases   SetPurchaseId, on the list purchaseIds
--     Equal       operator == and !=, with fuel for the loop over the variables
--   Codec         abstraction/vcookiestore.cpp: Write has AddItem, AddField and Serialize, Read has
--                 ReadItem and Deserialize as a parser over what is left of the buffer; Format
--                 describes the bytes independently of both; Invariant and Total are about any property
--                 that each step of the reader keeps, Valid and Intact about two such properties
--   Memory        VCStoreInMemory.h (and its copy in abstraction/): VCookieId and the store over
--                 std::map, which is the list of its nodes in the order of iteration, searched as the
--                 map is where operator < orders the keys; where it does not, the use of a std::map is
--                 undefined, so the theorems that search the map are about keys that it orders
--                 (Memory/Keys.Orders)
--   Store         abstraction/vcookiestore.h: what a store implements, and the batch operations;
--                 Store/Contract is what a client may rely on where a store keeps visitors apart, which
--                 Memory/Apart gives for the store in memory and Harness/Worker/Visitors uses
--   Couchbase     VCCouchbaseStore.cc, over libcouchbase as a record of its calls; Couchbase/Bulk has
--                 the batch operations, with the lifetime of their local variables
--   Harness       testharness.cpp, with the readings of the clock as arguments: the difference of
--                 readings, Monitor (rateMonitor), Timer (hiResTimer), Control (rateControl), Hits
--                 (dwfileHitSource), Worker (the loop of WorkerThread) and Aggregate (the totals of
--                 all workers and main's averages, which take each timer as one call of
--                 NsPerSecond gives it; Aggregate/Calls has the loop with the call of every use, and
--                 Aggregate/Growth and Aggregate/Idle compare the two). Worker/Finish has what a
--                 worker does after its loop, Threads the children of main with their interleavings
--                 as schedules, Configure the options, and Program main
--   Nop           VCStoreNOP.h: the store that keeps nothing
--   Tests         runs at concrete inputs
--
-- Conventions. The machine is 64-bit and little-endian: char 1 byte, unsigned short 2, unsigned 4,
-- time_t 8. A time_t is its bit pattern, compared as a signed number by adding 2 ^ 63. A std::string is
-- the list of its bytes, and a buffer too. The size of relVar and relVarSort is below 2 ^ 32, as there
-- are 2 ^ 16 relation ids at most; a deque with 2 ^ 32 elements or more is not modelled. Storage
-- never runs out. A file is its bytes, and reading it does not fail. The functions of boost that the
-- harness calls (split, regex_replace, lexical_cast) are a record of functions.
-- The store that a VCookie refers to is an argument of the constructor and of Store.
-- Where Deserialize ignores that a header byte is missing, the byte reads as 0; the next read then
-- ends it with false whatever the byte is.
--
-- Where Deserialize points past the end of its buffer, which is undefined, the model goes on with
-- nothing left to read; Codec/Valid.PointsInside says that a buffer does not make it do so, and what
-- Serialize writes does not.
--
-- Fuel. FindRelationPos has a round for each entry of the table and one more: each round shortens the
-- interval.
-- Serialize has one round for each entry and one more: each round goes on to a higher relation id.
-- Deserialize has one round for each byte and one more: each round reads two bytes at least. The loops
-- of rateMonitor and hiResTimer have one round for each second of the clock and one more.
-- NextHit has one round for each byte and each file left, and one more. The loop of operator == has
-- one round for each entry of the table and one more.
--
-- A turn of a thread is what it does between two mutexes: each worker has a store, timers and a
-- controller for itself (so a server that the stores share is not modelled there), and what comes
-- before a mutex touches only those.
--
-- Of the unit tests (abstraction/test.cpp), Tests/Scenarios runs TestRelationVars on the model, and
-- Tests/Setup CreateVCookie and CreateVCookie2.
--
-- Not modelled: the text of the output of the test harness (testharness.cpp), the other unit tests and
-- their framework (abstraction/fct.h), the sketch abstraction/vcookieuser.h, and the Perl scripts that
-- report on results.
pub mod Base
pub mod Codec
pub mod Cookie
pub mod Couchbase
pub mod Harness
pub mod Memory
pub mod Nop
pub mod Store
pub mod Tests
