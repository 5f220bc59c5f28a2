-- ===== src/Consensus/Backing/Evidence.antt =====
-- What a replica has to hold for each proof and vote that it broadcasts
-- (raspen/crates/consensus/src/checkpoint.rs, repair_entry.rs and repair.rs).
use raspen.Prelude.{◌≤◌, ◌≡◌, refl, subst, ◌∙◌, List, [], ◌∷◌, All, All-append, count_if}
use raspen.Types.{
  Message, checkpoint, timeout_proof, conflict_proof, repair_history, repair_prepare, repair_commit,
  repair_done, Effect, broadcast, send, Config,
}
use raspen.Consensus.Replica.{Replica}
use raspen.Consensus.Checkpoint.{sync_matches}
use raspen.Consensus.RepairEntry.{sync_at, timeout_matches}
use raspen.Consensus.Repair.{prepare_matches, commit_matches}
use raspen.Consensus.Blocks.{IsTransitive}
use raspen.Consensus.Grows.{count-Grows, history_is, AllGrow, AllGrow-refl, AllGrow-trans}

module _ {S : Type 0} where
  -- The messages that the replica holds for what it broadcasts.
  abbrev pub BackedMessage : Config → Replica S → Message → Type 0
  BackedMessage c r (checkpoint _ round log_idx log_hash) =
      c.fast_quorum ≤ count_if (sync_matches round log_idx log_hash) r.state.sync_msgs
  BackedMessage c r (conflict_proof round log_idx) =
      c.byz_quorum ≤ count_if (sync_at round log_idx) r.state.sync_msgs
  BackedMessage c r (timeout_proof round log_idx) =
      c.f_plus_1 ≤ count_if (timeout_matches round log_idx) r.state.timeout_msgs
  BackedMessage c r (repair_history _ view round hist) = c.byz_quorum ≤ hist
  BackedMessage c r (repair_prepare _ view round hist) =
      1 ≤ count_if (history_is view round hist) r.state.repair_history_msgs
  BackedMessage c r (repair_commit _ view round hist) =
      c.byz_quorum ≤ count_if (prepare_matches view round hist) r.state.repair_prepare_msgs
  BackedMessage c r (repair_done _ view round hist) =
      c.byz_quorum ≤ count_if (commit_matches view round hist) r.state.repair_commit_msgs
  BackedMessage c r _ = Unit

  abbrev pub IsBacked : Config → Replica S → Effect → Type 0
  IsBacked c r (broadcast m) = BackedMessage c r m
  IsBacked c r (send to m) = BackedMessage c r m

  BackedMessage-mono :
      (c : Config) (r r' : Replica S) (m : Message)
      → AllGrow r r'
      → BackedMessage c r m
      → BackedMessage c r' m
  BackedMessage-mono c r r' (checkpoint _ round log_idx log_hash) g b =
      count-Grows _ _ _ _ g.syncs b
  BackedMessage-mono c r r' (conflict_proof round log_idx) g b = count-Grows _ _ _ _ g.syncs b
  BackedMessage-mono c r r' (timeout_proof round log_idx) g b = count-Grows _ _ _ _ g.timeouts b
  BackedMessage-mono c r r' (repair_history _ view round hist) g b = b
  BackedMessage-mono c r r' (repair_prepare _ view round hist) g b =
      count-Grows _ _ _ _ g.histories b
  BackedMessage-mono c r r' (repair_commit _ view round hist) g b = count-Grows _ _ _ _ g.prepares b
  BackedMessage-mono c r r' (repair_done _ view round hist) g b = count-Grows _ _ _ _ g.commits b
  BackedMessage-mono c r r' _ g b = tt

  IsBacked-mono :
      (c : Config) (r r' : Replica S) (es : List Effect)
      → AllGrow r r'
      → All (IsBacked c r) es
      → All (IsBacked c r') es
  IsBacked-mono c r r' [] g b = tt
  IsBacked-mono c r r' (broadcast m ∷ es) g b =
      (BackedMessage-mono c r r' m g b.0, IsBacked-mono c r r' es g b.1)
  IsBacked-mono c r r' (send to m ∷ es) g b =
      (BackedMessage-mono c r r' m g b.0, IsBacked-mono c r r' es g b.1)

  -- The sets of messages grow, and the replica afterwards holds what backs each effect.
  pub record Backs (r r' : Replica S) (effects : List Effect) : Type 0 where
    pub config : r'.config ≡ r.config
    pub grow : AllGrow r r'
    pub backed : All (IsBacked r.config r') effects

  pub Backs-transitive : IsTransitive Backs
  Backs-transitive = record {
    stay = λ r. record { config = refl; grow = AllGrow-refl r; backed = tt };
    chain = λ a b c es fs f g. record {
      config = g.config ∙ f.config;
      grow = AllGrow-trans a b c f.grow g.grow;
      backed =
          All-append (IsBacked a.config c) es fs (IsBacked-mono a.config b c es g.grow f.backed)
            (subst (λ k. All (IsBacked k c) fs) f.config g.backed);
    };
  }
