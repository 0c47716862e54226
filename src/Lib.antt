-- ===== src/Lib.antt =====
-- Verification of mediamanager, a program that imports camera media from cards to fast spool disks,
-- archives it to a NAS, flushes the spools, and keeps a tree of symlinks to the best copy of each
-- file for an editor.
--
-- How the parts fit: a scan finds media files on a source; an identity derived from content names
-- each of them; the catalog records which asset has which copies on which locations and in which
-- state; copyfile is the one place that moves bytes; the link tree points at the nearest complete
-- copy that the catalog lists.
--
-- Which file models what:
-- - Media, of media/kind.go: Kind, String, UsesSparseID.
-- - Identity, of identity/identity.go: Sparse, SparseFile, Full. A file is the list of its bytes, and
--   SHA-256 is a parameter, any function on bytes. Identity/Message is about what is hashed.
-- - Naming, of naming/naming.go: Sanitize, FileName, Parse, the two schemes and the paths of
--   companions. Naming/Split and Naming/Safe have the lemmas, Naming/RoundTrip the round trip.
-- - Catalog, of catalog/catalog.go and catalog/schema.sql: its tables as lists of rows with keys
--   (Table), and one function for each method of DB. Catalog/Invariant has the constraints of the
--   schema and that every statement keeps them; Catalog/Worklists/Exact, Catalog/Copies/Joined,
--   Catalog/Assets/Recorded and Catalog/Sources/Cache are about what the queries answer.
-- - Files: files with content and time, and calls on them each of which may fail as a list of faults
--   says. Copyfile, of copyfile/copyfile.go: Copy, resumePoint, stream, verify, completed.
--   Copyfile/Keeps, Copyfile/Outcome, Copyfile/Finish and Copyfile/Safe are about how any copy ends,
--   Copyfile/Stream and Copyfile/Fresh about one in which nothing fails.
-- - Scan, of scan/scan.go, scan/classify.go and scan/junk.go: the classifier and the roles;
--   Scan/Walk is the walk of a source; Scan/Classes and Scan/Recognised are about them. Scan/Mp4, of
--   scan/mp4.go: the walk over the atoms of a movie file, with Scan/Mp4/Bounds about it.
-- - Config, of config/config.go: the defaults and the checks of the decoded settings;
--   Config/Checked and Config/Limits say what they ensure.
-- - Linktree, of linktree/linktree.go: Set, swap, Reconcile, Audit, Dangling and Choose on a list of
--   entries, with calls that may fail; Linktree/Swap, Linktree/Place, Linktree/RealFiles and
--   Linktree/Choice are about them.
-- - Ingest, of package ingest, over all of these: a step is an action on a Store, which has the
--   catalog, the files and the link trees, and any of whose calls may fail (Ingest/Store). Ingest/Env,
--   of ingest/env.go: the places of the configured locations and the link roots. Ingest/Source and
--   Ingest/Scanned, of ingest/source.go: ScanSource, register, place. Of ingest/steps.go: Ingest itself
--   (pickFlushPair, verifyPair, preferredOwner), Ingest/Companions, Ingest/Transfer (copyTo, Spool,
--   Archive), Ingest/Flushing (Flush), Ingest/Sweep (sweepCompanions) and Ingest/Reconcile. Ingest/Verify,
--   of ingest/verify.go: checkCopy. Of ingest/import.go: Ingest/Import (Import, ArchiveAll,
--   AllArchivedOn), Ingest/Listing (List, Select, Status) and Ingest/Batches (the batches, ArchivePlan).
-- - Ingest/Tiers is the abstract view of spooling, archiving and flushing: which location holds a
--   complete copy of which asset, and the moves that are allowed on that. Its modules show that the
--   steps are such moves; they use the rules of Ingest/Kept. Ingest/Pick, Ingest/Flush, Ingest/Check,
--   Ingest/Owner, Ingest/Source/Placed, Ingest/Source/Registered, Ingest/Transfer/Room,
--   Ingest/Import/SafeToFormat, Ingest/Import/Pages, Ingest/Import/Fuel, Ingest/Listing/Selected and
--   Ingest/Listing/States are about single operations. Ingest/Scenarios is a card, a spool and a NAS with a picture.
-- - Base has the shared notation and lemmas, Base/Exec the actions that change a state and may fail;
--   SlashPath is Go's path packages, Clock its time values.
--
-- Bounds and fuel: sizes are natural numbers, and the eight bytes of a size that identity.Sparse
-- hashes are written out modulo 2^64. The copy loop takes one round for each byte that is left,
-- which is enough since every round moves at least one byte. AllArchivedOn takes one page more than the
-- source has files, and each page but the last has an asset. Texts are lists of code points.
--
-- What is not modelled: the SQLite engine, YAML decoding, the Temporal SDK and its workflows
-- (temporal), the volume tools of the platforms (volume), the command line (cmd/mm), the reading of
-- capture times from files (scan/capture.go, scan/exif.go, a parameter here, and the calendar of
-- scan/mp4.go), and, of the package
-- ingest, what Verify and AdoptEdits write, the adoption of a library (ingest/adopt.go), the dry run of
-- an import (ingest/plan.go), the progress that is reported, the locks that bound how many copies run
-- at once, and the archivers that run beside an import: here an asset is archived when it is handed over.
pub mod Base
pub mod Media
pub mod SlashPath
pub mod Clock
pub mod Identity
pub mod Naming
pub mod Table
pub mod Files
pub mod Copyfile
pub mod Scan
pub mod Config
pub mod Linktree
pub mod Ingest
pub mod Catalog
