-- ===== src/Answers/Eligible.antt =====
-- packages/transport-matrix/src/transport.ts: who may answer an elicitation.
use mathlib.Core.Path.{subst}
use zooid.Answers.{
  ElicitationMeta, MatrixEvent, ParsedElicitationResponse, Reply, Site, World, concerns,
  eligible_response, is_member, may_answer, parse_elicitation_response, related,
}
use zooid.Answers.Stock.{
  choice_at, command_of, from_agent, guard_elicitation_answer, in_scope, reaction_target,
}
use zooid.Dict.{Dict, get}
use zooid.Elicitation.{PendingElicitation}
use zooid.Elicitation.Valid.{Valid}
use zooid.Events.{opt_is, truthy}
use zooid.Json.{Json, as_text, coalesce}
use zooid.Prelude.{
  List, Option, String, ap, arith, bind_some, default, eq_iff, false, if_some, if◌then◌else◌,
  non_empty, non_empty-some, none, not, refl, some, sym, true, unless_some, ℕ, ◌&&◌, ◌==◌, ◌∙◌, ◌≡◌,
}
use zooid.Questions.{
  ParsedElicitationCommand, is_elicitation_request_id, parse_elicitation_command, reaction_index,
}
use zooid.Schemas.{object_at}

module _ {N : Type 0} (site : Site N) where
  -- A human of the room who may answer a question that was read in a world.
  pub record Eligible (evt : MatrixEvent N) (joined : Option (List String)) (seen : World)
      (id : String) (r : PendingElicitation) : Type 0 where
    pub sender : String
    pub sent_by : evt.sender ≡ some sender
    pub human : site.is_agent sender ≡ false
    pub member : is_member joined sender ≡ true
    pub asked : get id seen.elicitations.entries ≡ some r
    pub same_room : opt_is evt.room_id r.room_id ≡ true

  Eligible-of :
      (evt : MatrixEvent N) (joined : Option (List String)) (seen : World) (id : String)
      (r : PendingElicitation) (sender : String) (m : ElicitationMeta)
      → non_empty evt.sender ≡ some sender
      → site.is_agent sender ≡ false
      → get id seen.elicitations.entries ≡ some r
      → in_scope site evt joined r m sender ≡ true
      → Eligible evt joined seen id r
  Eligible-of evt joined seen id r sender m by human found passed = record {
    sender = sender;
    sent_by = non_empty-some evt.sender by;
    human = human;
    member = ground arith;
    asked = found;
    same_room = ground arith;
  }

  pub guard-Eligible :
      (evt : MatrixEvent N) (id : String) (joined : Option (List String)) (checked : World)
      (r : PendingElicitation) (sender : String)
      → guard_elicitation_answer site evt id joined checked ≡ some (r, sender)
      → Eligible evt joined checked id r
  unfolding guard_elicitation_answer
  guard-Eligible evt id joined checked r sender h =
      let (s, by, h) = bind_some (non_empty evt.sender) _ h in
      let (q, found, h) = bind_some _ _ h in
      let (human, found) = unless_some (site.is_agent s) _ found in
      let (m, meta, h) = bind_some (get id checked.metas) _ h in
      let (passed, same) = if_some (in_scope site evt joined q m s) _ h in
      let whole = ap (λ o. default o (r, sender)) same in
      subst (Eligible evt joined checked id) (ap (λ p. p.0) whole)
        (Eligible-of evt joined checked id q s m by human found passed)

  same_room_lem :
      (o : Option String) (room mine : String)
      → o ≡ some room
      → (mine == room) ≡ true
      → opt_is o mine ≡ true
  same_room_lem o room mine e h = rw e (ground (arith, eq_iff mine room, eq_iff room mine))

  -- What an eligible response is: the question that its event names, its reply, sender and event.
  pub record Responds (evt : MatrixEvent N) (joined : Option (List String)) (before : World)
      (r : PendingElicitation) (reply : Reply N) (sender event_id : String) : Type 0 where
    pub eligible : Eligible evt joined before r.request_id r
    pub sender_is : evt.sender ≡ some sender
    pub event_is : evt.event_id ≡ some event_id
    pub response : ParsedElicitationResponse N
    pub parsed : parse_elicitation_response evt.content ≡ some response
    pub names : response.request_id ≡ r.request_id
    pub says : response.reply ≡ reply

  pub eligible_response-Responds :
      (evt : MatrixEvent N) (joined : Option (List String)) (before : World)
      (r : PendingElicitation) (reply : Reply N) (sender event_id : String)
      → Valid before.elicitations
      → eligible_response site evt joined before ≡ some (r, reply, sender, event_id)
      → Responds evt joined before r reply sender event_id
  unfolding eligible_response
  eligible_response-Responds evt joined before r reply sender event_id v h =
      let (p, parsed, h) = bind_some (parse_elicitation_response evt.content) _ h in
      let (s, by, h) = bind_some (non_empty evt.sender) _ h in
      let (e, event, h) = bind_some (non_empty evt.event_id) _ h in
      let (room, roomed, h) = bind_some (non_empty evt.room_id) _ h in
      let (human, h) = unless_some (site.is_agent s) _ h in
      let (q, asked, h) = bind_some (get p.request_id before.elicitations.entries) _ h in
      let (passed, same) = if_some (concerns site q room p && may_answer site joined q s) _ h in
      let whole = ap (λ o. default o (r, reply, sender, event_id)) same in
      let named = v.keyed p.request_id q asked in
      subst (λ x. Responds evt joined before x.0 x.1 x.2 x.3) whole
        (record {
          eligible = record {
            sender = s;
            sent_by = non_empty-some evt.sender by;
            human = human;
            member = ground arith;
            asked = subst (λ i. get i before.elicitations.entries ≡ some q) (sym named) asked;
            same_room =
                same_room_lem evt.room_id room q.room_id (non_empty-some evt.room_id roomed)
                  (ground arith);
          };
          sender_is = non_empty-some evt.sender by;
          event_is = non_empty-some evt.event_id event;
          response = p;
          parsed = parsed;
          names = sym named;
          says = refl;
        })

  -- What a reaction answers: it annotates the event under which the question was remembered, and its
  -- key is the number of the choice of the question's one field.
  pub record Reacts (evt : MatrixEvent N) (before : World) (id name choice : String) : Type 0 where
    pub target : String
    pub relation : Dict (Json N)
    pub index : ℕ
    pub meta : ElicitationMeta
    pub choices : List String
    pub annotates : related "m.annotation" evt.content ≡ some target
    pub remembered : get target before.by_event ≡ some id
    pub related_by : object_at (get "m.relates_to" evt.content) ≡ some relation
    pub keyed :
        reaction_index (as_text (coalesce (get "key" evt.content) (get "key" relation)))
        ≡ some index
    pub known : get id before.metas ≡ some meta
    pub asked : meta.reaction ≡ some (record { name = name; choices = choices })
    pub chosen : choice_at site index choices ≡ some choice

  pub reaction_target-Reacts :
      (evt : MatrixEvent N) (before : World) (id name choice : String)
      → reaction_target site evt before ≡ some (id, name, choice)
      → Reacts evt before id name choice
  unfolding reaction_target
  reaction_target-Reacts evt before id name choice h =
      let (target, a, h) = bind_some (related "m.annotation" evt.content) _ h in
      let (rel, b, h) = bind_some (object_at (get "m.relates_to" evt.content)) _ h in
      let (i, k, h) =
        bind_some (reaction_index (as_text (coalesce (get "key" evt.content) (get "key" rel)))) _
          h in
      let (j, found, h) =
        bind_some (if from_agent site evt then none else non_empty (get target before.by_event)) _
          h in
      let (human, found) = unless_some (from_agent site evt) _ found in
      let (m, known, h) = bind_some (get j before.metas) _ h in
      let (f, asked, h) = bind_some m.reaction _ h in
      let (c, chosen, same) = bind_some _ _ h in
      let (placed, chosen) =
        if_some (opt_is evt.room_id m.room_id && truthy evt.event_id) _ chosen in
      let whole = ap (λ o. default o (id, name, choice)) same in
      subst (λ x. Reacts evt before x.0 x.1 x.2) whole
        (record {
          target = target;
          relation = rel;
          index = i;
          meta = m;
          choices = f.choices;
          annotates = a;
          remembered = non_empty-some (get target before.by_event) found;
          related_by = b;
          keyed = k;
          known = known;
          asked = asked;
          chosen = chosen;
        })

  pub command_of-some :
      (evt : MatrixEvent N) (command : ParsedElicitationCommand)
      → command_of site evt ≡ some command
      → parse_elicitation_command (default (as_text (get "body" evt.content)) "") ≡ some command
  unfolding command_of
  command_of-some evt command h =
      let (c, parsed, h) = bind_some _ _ h in
      let (there_is, parsed) = if_some (truthy evt.event_id) _ parsed in
      let (shaped, same) =
        if_some (is_elicitation_request_id c.request_id && not (from_agent site evt)) _ h in
      parsed ∙ same
