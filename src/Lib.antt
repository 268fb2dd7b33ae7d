-- ===== src/Lib.antt =====
-- OpenTerms, the Python SDK (packages/openterms-py): policies that decide on receipts, receipts that
-- are canonicalized, signed, sent and verified, and the permissions that a domain publishes. With it,
-- the adapters that make receipts for the tool calls of LangChain and of CrewAI.
--
-- Parts, and the files that model them:
--   * packages/openterms-py/openterms/policy: Policy. Types holds types.py (Rule, Policy, Decision and
--     their from_dict and to_dict), Pattern holds pattern.py (resolve_path, _glob_match, match_one),
--     Rules and its children hold rules.py (one function for each evaluator, by the same name, and the
--     dispatch table), Engine holds engine.py (evaluate, evaluate_with_context). Clock is the deadline:
--     an action reads the clock at numbered moments.
--   * packages/openterms-py/openterms/receipts: Receipts. Canonical holds canonical.py (with
--     Canonical/Json for json.dumps and the UTF-8 encoder), Base64 holds _b64.py, Signing holds
--     signing.py, Verification holds verification.py. Crypto is the interface to hashlib and the
--     cryptography package, with the sizes and the verification law of RFC 8032 as a second record.
--   * packages/openterms-py/openterms/permissions: Permissions. Models holds models.py, Cache holds
--     cache.py, Headers, Network and Client hold client.py, and Shared its module functions.
--   * packages/openterms-py/openterms/client.py: Ingest. Service holds IngestClient and what it
--     reaches, Outcome the three ways a call ends (a value, IngestError, another exception),
--     Transport _post, Keys fetch_jwks and verify, Emit emit_receipt and emit_post_action_receipt.
--   * packages/langchain-openterms/openterms_langchain/handler.py: Langchain. Handler holds
--     OpenTermsCallbackHandler, Runs its calls in sequence.
--   * packages/crewai-openterms/openterms_crewai/wrapper.py: Crewai. Wrapper holds wrap_tool,
--     openterms_tool and _build_args.
--   * packages/openterms-py/scripts/generate_corpus.py: Corpus. Scenario holds the scenario and the
--     random generator, Keys, Uuids and Times the helpers of these names, Schedule
--     build_bucket_assignments and assign_timestamps, Buckets and Payload build_receipt_payload,
--     Generate the loop of main that signs; Daily, RuleIds and Decisions hold compute_daily_aggregates,
--     find_rule_id and evaluate_corpus, Simulation compute_simulation_diffs, Checks, Links and
--     Validation the steps of validate_corpus, Main and Files main with _dump_json and --check.
--     Chains holds what linked receipts are.
-- The engine reads a receipt as a dictionary. Signing and verification share the canonical form; the
-- permission client owns a cache of documents. The ingest client builds a payload, signs it and posts
-- the receipt, and the two adapters call it before and after a tool. Python holds what all of them
-- share: dynamically typed values, dictionaries in insertion order, texts, and exceptions as values of
-- a result type. Prelude holds the shared names, tests and lemmas, Samples the stand-ins with which
-- the examples run.
--
-- State is passed on: the engine's trail of fired rules, the clock's moment, the permission
-- client's world (cache, moment, requested addresses), the ingest client's world (its JWKS,
-- moment, sent requests), the handler's pending receipts and tool terms. Parameters are str, repr,
-- type names, sorted, equality of values, str.lower and str.strip, json.loads and json.dumps,
-- HTTP, the clock, uuid4, SHA-256 and Ed25519, the callable that is wrapped with what inspect says
-- of it, int of a value, and for the corpus the seeded generator of random, strptime and strftime,
-- the divisions of floats, and the texts that come from git and from the scenario's file. The
-- network, the clock and uuid4 are functions of the moment, which passes with each call.
--
-- Fuel: the loop of _glob_match runs on (len(target) + 1) * (len(pattern) + 1) rounds. A round
-- moves forward in the pattern, or goes back in it behind a later saved position of the text, so the
-- pattern is passed through once for each of these positions. Every other loop is structural.
--
-- Numbers: Python's integers are unbounded and are ℤ over the native numbers. A float is kept as its
-- repr, which determines it; times of the permission client are nanoseconds. A text is a sequence of
-- code points without surrogates.
--
-- Not modelled: the locks of the cache and of the handler, whose critical sections are single
-- steps here; log lines; the exceptions of urlopen that are no URLError, of regular expressions,
-- of too deep recursion and of memory; of the corpus generator its arguments and paths, the
-- reading of the scenario (a record with the types that it has in the repository) and of the
-- policies; the quickstart examples, which are demonstrations, and the TypeScript SDK.
pub mod Prelude
pub mod Python
pub mod Corpus
pub mod Crewai
pub mod Ingest
pub mod Langchain
pub mod Permissions
pub mod Policy
pub mod Receipts
pub mod Samples
