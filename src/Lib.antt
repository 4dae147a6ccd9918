-- ===== src/Lib.antt =====
-- depix-sdk: a TypeScript SDK for self-custodial DePix wallets on Liquid, built so that an agent can
-- drive it without being able to empty it. This library models the parts that decide whether money
-- may leave, and the stores that decide whether it leaves twice.
--
-- The parts and how they meet. A wallet (src/wallet.ts) asks the guardrails (src/guardrails) before
-- it signs, and records the spend when it has signed. The guardrails keep a rolling window of 24
-- hours in an authenticated file, bound by an epoch to the anchor in wallet.json, which the seed
-- store (src/store/seed-store.ts) seals together with the seed. A withdrawal (src/flows/withdraw.ts)
-- checks the API's answer and the built transaction, and passes through the store of pending
-- withdrawals (src/pending.ts). A conversion picks one of the routes (src/convert/routes.ts) and, over
-- several legs, goes through the plan store (src/convert/plan-store.ts).
--
-- Which file models which part:
--   Common and its modules: tests on numbers, lists, results of calls that may throw, strings as code
--     units, numbers and untyped values of JavaScript.
--   Errors: the codes of src/errors.ts that the modelled code throws.
--   Crypto: the interface to base64, AES-GCM and JSON (Platform), with a concrete instance.
--   Guardrails.Config: src/guardrails/config.ts (resolveGuardrailConfig is resolve_guardrail_config).
--   Guardrails.Allowlist: src/guardrails/allowlist.ts (AllowlistMatcher, check, checkOne).
--   Guardrails.StateFile: src/guardrails/state-crypto.ts and parseState of guardrails.ts.
--   Guardrails.Anchor: the interface GuardrailAnchorStore; Seed.Survival gives the wallet file as an
--     instance of it.
--   Guardrails.Window: src/guardrails/guardrails.ts (enforce, recordSpend, usage, loadWindow).
--   Guardrails.Cap: histories of spends, crashes and tampering over a disk.
--   Seed: src/store/seed-store.ts, from the point where the key is derived; Seed.Tamper edits the
--     anchor of a wallet file.
--   Routes: src/convert/routes.ts, with VARIANT_KEYS of src/convert/boltz/stablecoin.ts and
--     USDT_NETWORKS of src/convert/sideshift.ts.
--   Vault: what the encrypted record stores share, and the interface to sealing and opening a record.
--   Plans: src/convert/plan-store.ts; Pending: src/pending.ts and discardIfUnsigned of src/wallet.ts.
--   Convert: src/convert/intent.ts. Convert.Execute holds the executors (executeLeg), Convert.Choose the
--     choice of the route (convertIntent), Convert.Quote the estimates (quoteRoute).
--   Multihop: src/convert/multihop.ts. Multihop.Drive is drivePlan, Multihop.Resume resumeOnePlan and
--     its helpers, Multihop.Passes the entry points, Multihop.Notes the texts. executeLeg is the
--     parameter run_leg, which is given the plan file that the wallet's hooks read.
--   Sideshift: the statuses and amounts of src/convert/sideshift.ts.
--   Sideshift.Log: src/convert/sideshift-store.ts (SideShiftStore).
--   Lightning: src/convert/boltz/lightning.ts, without the payment hash of an invoice.
--   DirLock: src/store/dir-lock.ts; DirLock.Exclusive runs processes over it.
--   ScanHint: src/store/update-store.ts (UpdateStore). Quotes: the cache of src/guardrails/quotes.ts.
--   Throttle: src/api/throttle.ts; Status: src/flows/status.ts.
--   Valuation: the DePix peg of src/guardrails/valuation.ts; Valuation.Brl its BrlValuator, over an
--     interface to the arithmetic of doubles.
--   Withdraw: src/flows/withdraw.ts and the validations of processWithdrawResponse in src/wallet.ts.
--
-- Choices. State is passed explicitly: an operation takes the file or the disk and gives what it
-- leaves, and a mutex of the source makes it one step. A call that throws is a Result. Clocks and
-- initialisation vectors are arguments. Amounts are natural numbers once the source has checked them
-- to be safe integers; before that they are the numbers of JavaScript in Common.Js. Every loop is
-- structural recursion: the waiting loops of Status and Throttle run over the list of their clock
-- readings or delays. Three loops use fuel: the decimal digits (Common.Decimal), the number plus one,
-- the polls of Convert.Execute, a round for each millisecond of the timeout and one more, and the
-- doublings of Lightning.unit_of, sixty, which sixty_rounds_suffice of Lightning.Margin shows enough.
-- Where code computes with fractions, the arithmetic of doubles is an interface (Common.Doubles); the
-- fee margin of Lightning computes its one product of doubles exactly. The fields of wallet.json keep
-- the types that the source declares for them; it does not validate them.
--
-- Not modelled: network and file system I/O, the wallet engine (LWK), key derivation, logging, and
-- the messages of errors; the protocols of the providers (SideSwap, Boltz, SideShift, CryptoRefills), whose
-- calls are interfaces here; the MCP server, the agent client and gift cards.
pub mod Common
pub mod Convert
pub mod Crypto
pub mod DirLock
pub mod Errors
pub mod Guardrails
pub mod Lightning
pub mod Multihop
pub mod Pending
pub mod Plans
pub mod Quotes
pub mod Routes
pub mod ScanHint
pub mod Seed
pub mod Sideshift
pub mod Status
pub mod Throttle
pub mod Valuation
pub mod Vault
pub mod Withdraw
