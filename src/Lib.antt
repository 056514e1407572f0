-- ===== src/Lib.antt =====
-- Verification of the agent stack: the exactly-once guard of write tools, the treasury that pays for
-- requests and tool calls, the pipeline that fetches what tools name with its guards and clients, the
-- wallets, and the caches and archives.
--
-- The program is a set of plugins around an agent loop. Those whose rules the others rely on are
-- modelled here.
--
-- dsh-treasury keeps balances and expenses in a storage domain, derives from them how long the money
-- lasts, and lets its policy refuse requests and tool calls:
--   - Treasury/Economics: dsh-treasury/src/haven.ts. `compute_runway`, `compute_treasury_state`, and
--     `authorize_cost` are `computeRunway`, `computeTreasuryState` and `authorizeCost`. Numbers are
--     those the callers hand over, natural numbers of micro-dollars, below 2^53.
--   - Treasury/Domain: dsh-treasury/src/domain.ts and types.ts, rows and reports. `Number` is a number of
--     JavaScript, as far as the checks tell numbers apart. The storage domain is not in the repository: it
--     is `Table`, an interface with the laws of a durable map whose writes may fail.
--     Treasury/Domain/Memory is an instance of it.
--   - Treasury/Ledger: the class `Treasury` of dsh-treasury/src/index.ts, a method each. An `await` of a
--     write may fail, and then the rest is skipped (Treasury/Ledger/Monad). `Date.now()` and `randomUUID()`
--     are arguments. The burn of a day is computed exactly; the code's doubles are exact while the windowed
--     spend in micro-dollars times 86,400,000 stays below 2^53, and round beyond.
--   - Treasury/Config: `resolveConfig` and `resolveBudget`. A configured share is an integer of any sign, NaN
--     or infinite; shares with a fraction are left out.
--   - Treasury/Invariant: dsh-treasury/src/invariant.ts.
--   - Treasury/Policy: dsh-treasury/src/policy.ts. The listeners are `pre_step`, `on_request`,
--     `pre_execute` and `post_execute`; the token meter and what `next()` does are arguments. A listener
--     runs to its end in one step.
--
-- dsh-exactly-once guards write tools against running twice:
--   - Wildcard: the patterns of tool names, which the treasury's policy uses too.
--   - ExactlyOnce/Canonical and ExactlyOnce/Json: dsh-exactly-once/src/canonical.ts. A value lives on a
--     heap of objects that may be shared or cyclic. The fuel of `sort_value` is the number of objects
--     and two: the objects on the way down are different, since an object that is met again is cut.
--   - ExactlyOnce/Guard: the class `ExactlyOnceRuntime` of dsh-exactly-once/src/guard.ts. `wrap` is cut at
--     its two awaits: `enter` runs up to the first, `decide` goes on when the hook answered, `settle` and
--     `settle_throw` when the body ended. Readings of the clock within one such stretch are one.
--     ExactlyOnce/Guard/State has the maps and the methods outside `wrap`, and ExactlyOnce/Guard/Cold is
--     `buildColdIndex`. ExactlyOnce/Guard/Clone is `cloneJson`: the values of results are trees in which
--     `undefined`, functions and numbers that are not finite may stand, as JSON drops or replaces them. That
--     results are JSON values is the contract that dsh-exactly-once/src/guard.ts names; cycles and bigints,
--     on which the clone throws, are left out.
--   - ExactlyOnce/Plugin: the configuration, and what resets an agent, of dsh-exactly-once/src/index.ts.
--   - ExactlyOnce/World: many calls at once, as a relation of steps between awaits.
--
-- dsh-tool-acquisition fetches what third parties name, where dsh-tool-acquisition/src/fetchSafety.ts lets
-- it:
--   - Acquisition/Hosts: `hostMatches`, over Acquisition/Texts, the methods of strings. Letters are those
--     of ASCII.
--   - Acquisition/Addresses: IPv4 and IPv6 literals, and `ipIsPublic`.
--   - Acquisition/FetchTarget: `checkFetchTarget`. What the URL parser, `isIP` and the resolver of names
--     answer are arguments.
--   - Acquisition/Store: the class `HandleStore` of dsh-tool-acquisition/src/store.ts. The state is what the
--     file holds. A write may fail: `put_record` of Acquisition/Acquire/Outside asks the outside world whether
--     the file system takes it, and where it does not, the old file stays and the call throws.
--   - Acquisition/Mime, Acquisition/Extension, Acquisition/Sniff and Acquisition/Selection: `mediaKind`,
--     `mimeMatches`, `mimeFromExtension` and `sniffBytes` of dsh-tool-acquisition/src/filetype.ts, and
--     `selectFiles` of dsh-tool-acquisition/src/selection.ts, over the list of files that the walk of the
--     directories gives. Which names the regular expressions exclude, the sizes and the detected types
--     are parameters.
--   - Acquisition/Number, Acquisition/Bencode, Acquisition/Torrent and Acquisition/Magnet:
--     dsh-tool-acquisition/src/bencode.ts. `decode`, `parse_torrent` and `magnet_info_hash` are `decode`,
--     `parseTorrent` and `magnetInfoHash`. A position in the data is the rest of the bytes. Nesting is
--     bounded as in the code; each round of the loops over items and entries reads a byte, so the bytes and
--     one are fuel enough. Integers are rounded to doubles (`to_double`, whose 1024 halvings are enough below
--     2^1024; the code reads a greater numeral as infinite). SHA-1, UTF-8 and the URL parser are parameters.
--   - Acquisition/Acquire: the class `AcquireService` of dsh-tool-acquisition/src/acquire.ts, one call at a
--     time. Acquisition/Acquire/Outside has the errors and the interface `Outside`: the torrent clients,
--     the fetch, the Prowlarr resolution, the importer, the clock and the file system. `Library` in
--     Acquisition/Acquire/Status has the functions of paths, digests and URLs. An action takes the store
--     and the outside world on, and throws, or answers, or is out of fuel. There, too, are `status` and
--     `finalize`; Clients, Poll and Torrents are `submitTorrent`; Fetched is `branchFetchedFile`; Submit
--     is `submit`, and Check is `checkSubmit`. The loop of `poll` has the milliseconds to wait and one as its
--     fuel: a round that does not end the loop sleeps for a millisecond at least. Progress is in
--     millionths. An aborted sleep is one that answers false; other uses of the signal are within `Outside`.
--   - Acquisition/Qbittorrent: the class `QBittorrentClient` of dsh-tool-acquisition/src/qbittorrent.ts, over a
--     server that answers its requests. The loop of `call` is written out: it makes two attempts at most, and
--     the error behind it is never thrown. Acquisition/PathMappings is `applyPathMappings` of
--     dsh-tool-acquisition/src/importer.ts.
--   - Acquisition/Transmission: the class `TransmissionClient` of dsh-tool-acquisition/src/transmission.ts, over
--     a daemon that answers its requests, its loop written out likewise. Acquisition/Client has what both
--     clients share, and Acquisition/Backends is the submission to either, as the pipeline makes it. What
--     `String` and `Number` make of the answers is taken as read.
--   - Acquisition/Redact: `isSensitiveParam` and `redactText` of dsh-tool-acquisition/src/redact.ts.
--
-- dsh-haven-aol derives keys, and keeps them in caches:
--   - Aol/KeyCache: dsh-haven-aol/src/keyCache.ts. A cache is cut at the await of its fill: `enter` runs up
--     to it, `fetched`, `created` and `failed` go on. Aol/KeyCache/Single has many callers at once, as a
--     relation of steps.
--
-- dsh-wallet signs with configured wallets:
--   - Wallet: the class `WalletRuntime` of dsh-wallet/src/index.ts, a function for each method. The adapters of
--     chains and the credentials are the interface `Providers`; an operation runs to its end in one step.
--     `check_signed` is the check of dsh-wallet/src/invariant.ts. `is_blank`, of texts, is in
--     Treasury/Domain.
--   - Wallet/Lanes: `withLock`, as a relation of steps between many callers: a call, the beginning of a task
--     once the promise it waits for is settled, and its end.
--
-- Two smaller parts:
--   - Storage/Car: dsh-storage-synapse/src/singleBlockCar.ts, with a reader of such archives in
--     Storage/Car/Read. SHA-256 and the text of a CID are parameters. The fuel of the loop of
--     `encode_varint` is the number and one: a division by 128 makes a number other than 0 smaller.
--   - Prowlarr/Links: dsh-tool-prowlarr/src/links.ts; the random reference is an argument.
--
-- Not modelled: the fetches and the importer of dsh-tool-acquisition, what errors say, the wiring of the
-- plugins (`apply`), the schemas of configurations, and the other plugins.
--
-- Prelude holds what the modules share.
pub mod Prelude
pub mod Acquisition
pub mod Aol
pub mod ExactlyOnce
pub mod Prowlarr
pub mod Storage
pub mod Treasury
pub mod Wallet
pub mod Wildcard
