-- ===== src/Lib.antt =====
-- A model of the core of the FileList streaming service, a Go program that searches a tracker, downloads
-- torrents into a bounded store, streams them to the household's clients, and updates itself. All source
-- paths are from the repository's root.
--
-- The parts, and the files that model them:
--   * Domain, Settings, World: the records that the parts share (internal/domain/models.go, state.go and the
--     settings of internal/platform/config/config.go), the repository and the torrent engine behind the
--     service (internal/application/ports.go). What the database, the engine and the file system answer or
--     refuse is a parameter, `Env`, which may depend on every call made before.
--   * Retention, Survey, Eviction: internal/application/retention.go, and from service.go the admission of a
--     download (`ensureAllocationRoom`) with `removeTorrent`. A survey of the stored routes is taken again
--     after every eviction, as in the source; the retention job and the admission share the loop, here
--     `evict_until_fits`.
--   * Recovery: internal/application/updates/recovery.go and install_unix.go: the journal, the recovery
--     decision at startup, the activation, whose backup is a link or a copy, and the rollback of a single-file
--     installation, as lists of effects that a crash cuts short.
--   * Release: internal/application/updates/version.go and release.go: from an announcement to an asset and its
--     checksum.
--   * Portal: internal/application/portal/hub.go: the hub that polls the service portal.
--   * Supervisor: internal/gui/supervisor.go: the desktop application's server lifecycle, as a step relation
--     over the interleavings of its critical sections.
--   * Catalog: internal/application/catalog.go, the library state shown for sources, packs, seasons and titles.
--   * Jobs: from service.go the failure of a job's attempt, the claim of due jobs, with the times that
--     `SaveJob` and `ListDueJobs` of sqlite/repository.go keep, and the recovery of interrupted jobs at startup.
--   * Torrent: internal/application/torrentmeta.go: the reader of bencoded torrent metadata, the safe path of a
--     file, and the manifest of a release with its cache. `Torrent.Encoding` describes the format on its own.
--   * Staging: internal/application/updates/stage.go: the download of a release archive under its bound and
--     against its checksum, and the extraction of tar and zip archives under the rules of their members. What
--     an archive reader finds and what the file system refuses are parameters.
--   * Outbound: internal/platform/outbound/retry.go: the repeated request to an upstream that limits its rate.
--   * Watching: from service.go the stored playback: `UpdatePlayback` and `SetWatched`, with the row that
--     `SavePlayback` of internal/adapters/sqlite/repository.go replaces.
--   * Manager: internal/application/updates/manager.go: the update coordinator. Its critical sections and
--     `Apply` (`Applied`), their interleavings (`Machine`), and the installation and the startup sequence on
--     the disk of Recovery (`Pipeline`); what an apply installs is what Release resolves.
--   * Titles: internal/application/catalog.go, `groupCatalog`: the titles that catalog sources are grouped into.
--   * Events: from service.go the journal of events and its subscribers, as a step relation, and the handler
--     `events` of internal/adapters/httpapi/api.go, which replays and then follows them.
--   * Searches: from service.go the jobs of tracker searches with their queue and their worker.
--   * Slashes: texts with slashes and their parts.
--   * Base: notation, list, text and sort lemmas. Tests: the theorems at concrete inputs.
--
-- Numbers: sizes, times and counts are natural numbers, a progress (a float between 0 and 1) is in
-- millionths, a size in GB in thousandths; the sums of an admission, of a torrent's offsets, of an archive's sizes
-- and of a text's end wrap at 64 bits as in the source.
-- A negative size of a catalog file counts as 0. Texts that the code walks are lists of code points.
-- Fuel: the eviction loop is unbounded in the source; it is given one unit more than there are rows, and
-- every round removes a row of the store. The reader of metadata recurses at most twice as often as there are
-- bytes. An `int` has 64 bits, as on every platform of the releases but 32-bit ARM.
-- Parameters: SHA-256, semver, URL parsing and the release feed (`Outside`), the upstream portal client
-- (`Cycle`), the announcement and the format of times (`Surroundings`), the calls of an installation
-- (`Course`), the database and the engine (`Env`).
--
-- Not modelled: the HTTP API but for the stream of events, the byte-range streaming, the adapters
-- (FileList, TMDB, qBittorrent, the native torrent engine, SQLite but for the rows of playback,
-- jobs and manifests and the list of events, subtitles, ffprobe), the identity of an unpacked executable, Windows and macOS
-- installation, the queues of title refreshes and metadata, and catalog synchronisation, the user
-- interface. They are input and output around the parts above, or are left for later.
pub mod Base
pub mod Domain
pub mod Settings
pub mod Retention
pub mod World
pub mod Survey
pub mod Eviction
pub mod Recovery
pub mod Portal
pub mod Supervisor
pub mod Catalog
pub mod Release
pub mod Jobs
pub mod Slashes
pub mod Torrent
pub mod Staging
pub mod Outbound
pub mod Watching
pub mod Manager
pub mod Titles
pub mod Events
pub mod Searches
pub mod Tests
