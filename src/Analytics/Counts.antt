-- ===== src/Analytics/Counts.antt =====
-- What the statistics of analytics.service.ts count.
use api_wa_automation.Base.{
  ℕ, ◌+◌, Bool, true, false, ◌≡◌, refl, sym, ap, subst, ◌∙◌, ◌⊎◌, inl, inr, ◌&&◌, ◌==◌, Option,
  none, some, List, [], ◌∷◌, map, length, select, if◌then◌else◌, Has, Has-map, Bool-cases, arith,
}
use api_wa_automation.Orm.{Orm}
use api_wa_automation.Data.Tenancy.{Key, Session, WorkspaceMember}
use api_wa_automation.Data.Messaging.{MessageLog}
use api_wa_automation.Data.Campaign.{Broadcast, BroadcastStatus}
use api_wa_automation.World.{World, ok}
use api_wa_automation.Workspaces.{assert_member}
use api_wa_automation.Analytics.{
  SessionStats, BroadcastStats, StatusCounts, Grouping, is_key, count_of, session_stats_of,
  same_status, count_in, tally, tally_all, sum_from, session_stats, broadcast_stats,
}

-- The messages of a workspace that went through a session.
abbrev pub messages_of : Key → Key → List MessageLog → ℕ
messages_of workspace_id session_id logs =
    length (select (λ m. m.workspace_id == workspace_id && is_key session_id m.session_id) logs)

-- The first row for a key, if there is one.
count_of_sound :
    (k : Key) (rows : List (Option Key × ℕ))
    → ((n : ℕ) × Has (some k, n) rows × (count_of k rows ≡ n))
      ⊎ (((n : ℕ) → ¬ Has (some k, n) rows) × (count_of k rows ≡ 0))
count_of_sound k [] = inr (λ n h. h, refl)
count_of_sound k ((none, m) ∷ rows) = elim (count_of_sound k rows) [
  | inl (n, h, e) ↦ inl (n, inr h, e)
  | inr (none_there, e) ↦
      inr (λ n h. elim h [ inl x ↦ absurd (ground arith) | inr r ↦ none_there n r ], e)
]
count_of_sound k ((some j, m) ∷ rows) = elim (Bool-cases (j == k)) [
  | inl same ↦ inl (m, inl (ap (λ i. (some i, m)) (ground arith)), ground arith)
  | inr other ↦ elim (count_of_sound k rows) [
    | inl (n, h, e) ↦ inl (n, inr h, ground arith)
    | inr (none_there, e) ↦ inr (
      λ n h. elim h [
        | inl x ↦ (let same : some k ≡ some j = ap (λ z. z.0) x in absurd (ground arith))
        | inr r ↦ none_there n r
      ],
      ground arith,
    )
  ]
]

is_key_sound : (k : Key) (o : Option Key) → is_key k o ≡ true → o ≡ some k
is_key_sound k none h = absurd (cc)
is_key_sound k (some j) h = ap some (ground arith)

select-none :
    {E : Type 0} (p : E → Bool) (t : List E)
    → ((x : E) → Has x t → p x ≡ false)
    → length (select p t) ≡ 0
select-none p [] h = refl
select-none p (x ∷ t) h =
    let no = h x (inl refl) in let rest = select-none p t (λ y k. h y (inr k)) in ground arith

count_in-tally :
    (s t : BroadcastStatus) (acc : StatusCounts)
    → count_in s (tally t acc) ≡ (if same_status s t then 1 else 0) + count_in s acc
unfolding tally
count_in-tally s t [] = elim (Bool-cases (same_status s t)) [
  | inl e ↦ ground arith
  | inr e ↦ ground arith
]
count_in-tally s t ((u, n) ∷ acc) =
    let rest = count_in-tally s t acc in
    elim (Bool-cases (same_status t u)) [
      | inl tu ↦ elim (Bool-cases (same_status s u)) [
        | inl su ↦ ground arith
        | inr su ↦ ground arith
      ]
      | inr tu ↦ elim (Bool-cases (same_status s u)) [
        | inl su ↦ ground arith
        | inr su ↦ elim (Bool-cases (same_status s t)) [
          | inl st ↦ ground arith
          | inr st ↦ ground arith
        ]
      ]
    ]

count_in-tally_all :
    (s : BroadcastStatus) (list : List Broadcast) (acc : StatusCounts)
    → count_in s (tally_all list acc)
      ≡ length (select (λ b. same_status s b.status) list) + count_in s acc
unfolding tally_all
count_in-tally_all s [] acc = ground arith
count_in-tally_all s (b ∷ list) acc =
    let rest = count_in-tally_all s list (tally b.status acc) in
    let step = count_in-tally s b.status acc in
    elim (Bool-cases (same_status s b.status)) [ inl e ↦ ground arith | inr e ↦ ground arith ]

module _ ⦃orm : Orm⦄ ⦃grouping : Grouping⦄ where
  count_of-counts :
      (ws k : Key) (logs : List MessageLog)
      → count_of k (grouping.counts (λ m. m.workspace_id == ws) MessageLog.session_id logs)
        ≡ messages_of ws k logs
  count_of-counts ws k logs =
      let p : MessageLog → Bool = λ m. m.workspace_id == ws in
      let rows = grouping.counts p MessageLog.session_id logs in
      elim (count_of_sound k rows) [
        | inl (n, h, e) ↦ e ∙ sym (grouping.counts_sound p MessageLog.session_id logs k n h)
        | inr (none_there, e) ↦
            e
            ∙ sym (
                select-none (λ m. p m && is_key k m.session_id) logs
                  (λ m h. elim (Bool-cases (p m && is_key k m.session_id)) [
                    | inr f ↦ f
                    | inl t ↦
                        let its : m.session_id ≡ some k =
                          is_key_sound k m.session_id (ground arith) in
                        let (n, there) =
                          grouping.counts_complete p MessageLog.session_id logs k m h (ground arith)
                            its in
                        absurd (none_there n there)
                  ]))
      ]

  -- A member is told, for each session of the workspace, the number of the workspace's messages that
  -- went through it, 0 included, and nothing changes.
  pub session_stats_lem :
      (ws uid : Key) (member : WorkspaceMember) (w : World)
      → assert_member ws uid w ≡ (ok member, w)
      → (stats : List SessionStats) × (session_stats ws uid w ≡ (ok stats, w))
        × ((s : Session)
            → Has s w.sessions
            → s.workspace_id ≡ ws
            → Has
                (record {
                  id = s.id;
                  name = s.name;
                  status = s.status;
                  message_count = messages_of ws s.id w.logs;
                })
                stats)
  unfolding session_stats
  session_stats_lem ws uid member w e =
      let rows = grouping.counts (λ m. m.workspace_id == ws) MessageLog.session_id w.logs in
      let p : Session → Bool = λ s. s.workspace_id == ws in
      let found = orm.find p w.sessions in
      (
        map (session_stats_of rows) found,
        ground arith,
        λ s h here.
            subst
              (λ n.
                Has (record { id = s.id; name = s.name; status = s.status; message_count = n })
                  (map (session_stats_of rows) found))
              (count_of-counts ws s.id w.logs)
              (Has-map (session_stats_of rows) s found
                (orm.find_complete p w.sessions s h (ground arith))),
      )

module _ ⦃orm : Orm⦄ where
  -- A member is told how many broadcasts the workspace has in each status, and in all.
  pub broadcast_stats_lem :
      (ws uid : Key) (member : WorkspaceMember) (w : World)
      → assert_member ws uid w ≡ (ok member, w)
      → let list = orm.find (λ b. b.workspace_id == ws) w.broadcasts in
        (stats : BroadcastStats) × (broadcast_stats ws uid w ≡ (ok stats, w))
        × (stats.total ≡ length list)
        × ((s : BroadcastStatus)
            → count_in s stats.by_status ≡ length (select (λ b. same_status s b.status) list))
  unfolding broadcast_stats
  broadcast_stats_lem ws uid member w e =
      let list = orm.find (λ b. b.workspace_id == ws) w.broadcasts in
      (
        record {
          total = length list;
          by_status = tally_all list [];
          total_sent = sum_from Broadcast.sent_count list 0;
          total_failed = sum_from Broadcast.failed_count list 0;
        },
        ground arith,
        refl,
        λ s. let counted = count_in-tally_all s list [] in ground arith,
      )
