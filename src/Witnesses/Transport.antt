-- ===== src/Witnesses/Transport.antt =====
-- The theorems on errors and enums of the transports, at the sample caller.
use tolo_tenant_management.Prelude.{ℕ, ◌≡◌, refl, false, [], All}
use tolo_tenant_management.Failure
use tolo_tenant_management.Failure.{Err, sentinel, opaque, wrap, event_status_required}
use tolo_tenant_management.Domain.Role
use tolo_tenant_management.Domain.Role.Names as RoleNames
use tolo_tenant_management.Domain.Event
use tolo_tenant_management.Domain.Event.Names as EventNames
use tolo_tenant_management.Sample.{world, member_of}
use tolo_tenant_management.Transport.Errors
use tolo_tenant_management.Transport.Errors.{Response, refused, for_error}
use tolo_tenant_management.Transport.Errors.Secrecy.{
  IsAlike, IsReport, is_internal, errors_alike_look_alike, reported_once,
}
use tolo_tenant_management.Transport.Tenant
use tolo_tenant_management.Transport.Tenant.{EventStatus, event_status_proto, event_status_domain}
use tolo_tenant_management.Transport.Tenant.Statuses as Statuses
use tolo_tenant_management.Transport.Tenant.Statuses.{
  wire_status_round_trip, undeclared_status_is_refused,
}
use tolo_tenant_management.Transport.Relation
use tolo_tenant_management.Transport.Relation.{other, admin, unspecified, role_domain, role_proto}
use tolo_tenant_management.Transport.Relation.Roles as Roles
use tolo_tenant_management.Transport.Relation.Roles.{
  role_refused, wire_role_round_trip, ungrantable_role_is_refused,
}

abbrev secret : Err
secret = opaque "dial tcp 10.0.0.7:5432"

secret-IsAlike : IsAlike secret (wrap (opaque "pq: password"))
unfolding Failure.is
secret-IsAlike s = refl

errors_alike_look_alike_example :
    ((for_error Tenant.client_errors secret).0.code
      ≡ (for_error Tenant.client_errors (wrap (opaque "pq: password"))).0.code)
    × ((for_error Tenant.client_errors secret).0.message
        ≡ (for_error Tenant.client_errors (wrap (opaque "pq: password"))).0.message)
errors_alike_look_alike_example =
    errors_alike_look_alike Tenant.client_errors secret (wrap (opaque "pq: password"))
      secret-IsAlike

tenant-told : All (λ c. is_internal c.code ≡ false) Tenant.client_errors
tenant-told = (
  refl,
  (
    refl,
    (
      refl,
      (
        refl,
        (
          refl,
          (
            refl,
            (
              refl,
              (
                refl,
                (
                  refl,
                  (
                    refl,
                    (
                      refl,
                      (
                        refl,
                        (
                          refl,
                          (
                            refl,
                            (
                              refl,
                              (
                                refl,
                                (
                                  refl,
                                  (
                                    refl,
                                    (
                                      refl,
                                      (
                                        refl,
                                        (refl, (refl, (refl, (refl, (refl, (refl, (refl, tt))))))),
                                      ),
                                    ),
                                  ),
                                ),
                              ),
                            ),
                          ),
                        ),
                      ),
                    ),
                  ),
                ),
              ),
            ),
          ),
        ),
      ),
    ),
  ),
)

reported_once_example : IsReport secret (for_error Tenant.client_errors secret)
reported_once_example = reported_once Tenant.client_errors tenant-told secret

wire_role_round_trip_example :
    (RoleNames.IsDeclared Role.staff → role_domain (role_proto Role.staff) ≡ Role.staff)
    × (Roles.IsDeclared admin → role_proto (role_domain admin) ≡ admin)
    × ((n : ℕ)
        → (role_proto (Role.other n) ≡ unspecified) × (role_domain (other n) ≡ Role.unspecified))
wire_role_round_trip_example = wire_role_round_trip Role.staff admin

ungrantable_role_is_refused_example :
    (Relation.add_tenant_member (member_of "p2" "ann") "p2" "bob" (other 7) "Bob" world
      ≡ (role_refused (other 7) "role is required", world))
    × (Relation.change_tenant_role (member_of "p2" "ann") "p2" "bob" (other 7) world
        ≡ (role_refused (other 7) "role is required", world))
    × (Relation.grant_event_role (member_of "p2" "ann") "p2" "bob" (other 7) world
        ≡ (role_refused (other 7) "role is required", world))
ungrantable_role_is_refused_example =
    ungrantable_role_is_refused (member_of "p2" "ann") "p2" "bob" "Bob" "role is required" (other 7)
      world refl refl

wire_status_round_trip_example :
    (EventNames.IsDeclared Event.opened
      → event_status_domain (event_status_proto Event.opened) ≡ Event.opened)
    × (Statuses.IsDeclared EventStatus.locked
        → event_status_proto (event_status_domain EventStatus.locked) ≡ EventStatus.locked)
    × ((n : ℕ)
        → (event_status_proto (Event.other n) ≡ EventStatus.unspecified)
          × (event_status_domain (EventStatus.other n) ≡ Event.unspecified))
wire_status_round_trip_example = wire_status_round_trip Event.opened EventStatus.locked

undeclared_status_is_refused_example :
    Tenant.transition_event_status (member_of "p2" "ann") "q1" (EventStatus.other 9) world ≡ (
      refused (
        record {
          code = Errors.invalid_argument;
          message = "to is required";
          cause = sentinel event_status_required;
        },
        [],
      ),
      world,
    )
undeclared_status_is_refused_example =
    undeclared_status_is_refused (member_of "p2" "ann") "q1" (EventStatus.other 9) world refl tt
