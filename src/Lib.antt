-- ===== src/Lib.antt =====
-- The alarms of SenSa, a monitor of gas and power sensors and of workers in a plant.
--
-- Sensors and positions of workers come in by HTTP. `evaluate_worker` and `evaluate_sensor` compare
-- what is observed with the state that Redis holds, decide whether the state changes and whether an
-- alarm is due, write the alarm's row, send it to the dashboards and store the new state. Zones
-- say where a worker is in danger. A separate generator simulates the sensors in phases. The back
-- office is guarded by gates that look at the user's role and the permissions of a menu.
--
-- Which file models what, with the paths of the repository:
--   Prelude          shared names, Boolean tests, lists, texts and the floats: Python's floats are
--                    a parameter, the record `FloatOps`, of which no law is assumed
--   Alerts/Store     SenSa/alerts/state_store.py: `get_worker_snapshot`, `commit_state`, ... as
--                    functions on the state of Redis, with an instant as argument for the clock
--   Alerts/Common    SenSa/alerts/services/_common.py with the values of SenSa/mysite/settings.py
--   Alerts/Types, World   the enumerations, SenSa/alerts/models.py, and all that an evaluation
--                    changes: Redis, the rows, the broadcasts, the queue of notifications
--   Alerts/Fences    SenSa/alerts/services/geofence_utils.py
--   Alerts/Worker    SenSa/alerts/services/worker_evaluator.py: State, Message and Evaluate are its
--                    functions, Spec the step of one worker without the store, the others theorems
--   Alerts/Sensor    SenSa/alerts/services/sensor_evaluator.py, laid out alike
--   Alerts/Classify  SenSa/alerts/services/classifiers.py: the status of a reading
--   Alerts/Detectors SenSa/alerts/services/anomaly_detector.py (Arima) and trend_predictor.py
--                    (Trend): buffers and fits; a fit ends in a step of its own
--   Alerts/Notify    SenSa/alerts/notifiers.py and tasks.py: the webhooks and the task's retries
--   Geofence         SenSa/geofence/models.py and services.py: zones, ray casting; Hull is
--                    polygon_utils.py, Diffusion diffusion.py, Anomaly zone_anomaly.py and
--                    AutoTrigger auto_trigger.py
--   Geofence/Lifecycle   zone_lifecycle.py: Create, Grow, Spread, Expire and Check are its passes,
--                    Tick composes them with the neighbours, the anomalies and the hulls
--   Devices          SenSa/devices: Gate is the cache's gates, Neighbours neighbor_graph.py, Ingest
--                    the POST of a reading in views.py, which calls the gates, the classifiers, the
--                    detectors, `evaluate_sensor` and the auto trigger
--   Dashboard        SenSa/dashboard/views.py: Check is the check of workers and sensors, Forecast
--                    the forecast of one value with SenSa/alerts/services/arima_forecast.py
--   Generator        fastapi_generator: Scenario is scenario.py, toggles and phases; Readings, Worst
--                    and Walk are generators.py, the gases, the worst of them and a worker's walk
--   Backoffice       SenSa/backoffice/permissions.py; Dispatch is notification_dispatcher.py, Queue
--                    signals.py and notification_queue.py, Backup utils/backup.py and tasks.py,
--                    PolicyForm forms/notifications.py, Users the bulk calls of views/users.py,
--                    Cleanup management/commands/cleanup_data.py
--   Accounts         SenSa/accounts: Login and Password are views.py with serializers.py
--
-- The state of the program is passed explicitly: a handler takes the world and an instant, and
-- gives the world it leaves with what it returns. The rows of the database are lists, in the order
-- of the query that reads them. Times are microseconds as natural numbers, and the time does not
-- run while a handler does. A key of Redis is gone once its time to live is over; a theorem that
-- reads a key later says until when. The calls of `publish_alarm` and of the metrics, whose
-- exceptions the code swallows, always succeed, and so does the insertion of a row, but for an
-- audit that its table refuses. Loops are over lists, and Celery's retries are counted; only the
-- loop that empties a table takes fuel, for which the rows and the rounds in which others come are
-- enough. Libraries are parameters: ARIMA, the isolation forest, numpy, `statistics`, the
-- database's average, the network, `str.format`, and Django's cache, whose answers are a function of
-- what it was asked before. An exception of a library that the model follows is `none`.
--
-- Not modelled: the inside of those libraries, the REST lists, the WebSocket consumers, the external
-- notices of zones, the demonstration scenarios, the generator's readings of power and its HTTP loop,
-- and the lists and single forms of the back office.
pub mod Prelude
pub mod Alerts
pub mod Geofence
pub mod Generator
pub mod Backoffice
pub mod Devices
pub mod Dashboard
pub mod Accounts
